-- ===== src/Lib.antt =====
-- Qiki, the backend of a gas and water shop, as executable definitions with their theorems.
--
-- The program is a web service (backend/app). Its services change a database inside one
-- transaction for each request. This library models the services that carry the shop's
-- own logic, and how they share the tables of products, orders, coupons and deliveries.
--
-- - Base: Boolean tests, lists, tables keyed by id (Dict), and Action, the state passing of a
--   service method that may raise an exception (backend/app/core/exceptions.py). Its
--   `transaction` is get_db of backend/app/db/session.py: an exception restores the tables.
-- - Models: the rows (backend/app/models), Store, the tables of the database, and Redis.
-- - Coupons: CouponService and CouponRepository. check_eligibility, validate_coupon,
--   apply_coupon, record_redemption, create_coupon and update_coupon keep the names of the code.
-- - Stock: the locked product rows of ProductRepository (get_many_for_update,
--   decrement_stock, increment_stock).
-- - Orders: OrderService and OrderRepository. Checkout has create_order, Cancel has
--   cancel_order and update_order_status, Reorder has reorder, Status the table of
--   transitions. The other modules hold the proofs.
-- - Deliveries: DeliveryService. create_delivery splits an order, update_delivery_status
--   and driver_update_status move a delivery, and rolled_up moves its order along.
-- - Agent: the assistant of backend/app/agent. Policy is tools/registry.py, Gate is
--   tools/confirm_gate.py over the two Redis commands that it calls, Executor is
--   nodes/tool_executor.py, State is state.py, Nodes the other nodes and Graph the graph of one
--   turn. The decisions that LangGraph's interrupt() gives back after a resume are a list in the
--   state of a run. One run of the executor happens at one instant of the clock.
-- - AdminChat: AdminChatService, an administrator's command planned by one request and confirmed
--   by another with a one-time token. The parser and the catalog search are arguments.
-- - Auth: AuthService of backend/app/services/auth_service.py over the accounts and the commands
--   of Redis in Models/KeyStore. Library is what it calls (bcrypt, jwt, the tests on text), and
--   Draws the clock and the random draws of one request. The prefixes of the keys in Redis are
--   the constructors of Key. Sessions has the logins, tokens and passwords, Codes the
--   one-time codes; Revoked and Lockout hold the proofs.
-- - Chat: the order that a customer places in the chat (_handle_chat_order of
--   backend/app/services/conversation_service.py). Slots and Metadata are the slots of the order
--   and their JSON, Cues the phrases of a message, History what earlier messages say, Items the
--   operations on items, Dialogue the branches, Handling the whole method, Review the checks up
--   to the checkout, and Turn
--   one message with its effects on the tables of Orders. What a free text means (products,
--   names, numbers, addresses) is the record Reader of Items. The bounds that CheckoutRequest sets
--   on what the chat knows are checks of Review, whose failure is the reply invalid_request.
--   A state is that of the session at the return or the raise. Messages stand newest first. The
--   other modules hold the proofs.
-- - Support: the rest of conversation_service.py, a customer's message from its intent to its
--   answer. Conversations is ConversationRepository, Lifecycle the steps that
--   the services take there (all but update_status, which nothing calls), Intent the hybrid classifier of
--   backend/app/intent with RoutingService, Followup the follow-up notes, Understanding the overrides of the
--   intent in _plan_response, Plan its branches with their effects on all tables (Desk), and Safety
--   the screen of backend/app/rag/safety.py. The two classifiers, the foldings of Unicode and
--   what patterns read from the text are arguments. The other modules hold the proofs.
-- - PriceAlerts: PriceAlertService with its repository and the unique indexes of its table. What
--   other transactions commit between the look and the insertion of one request is part of Request.
-- - Reviews: ReviewService and MessageRepository, the queue of messages that staff review.
-- - Retrieval: chunk_text of backend/app/rag/text_processor.py.
-- - Catalogue: Query is product_query.py, Ranking recommendation_service.py with the catalog and
--   the best sellers of the database, Sorting Python's sort.
-- - Phones: VietnamesePhoneValidator of backend/app/core/input_validation.py, on lists of code
--   points. Python's strip and `$` are written out, the newline before the end included.
--
-- Money is a natural number of hundredths, as the Numeric(12, 2) columns hold it; the code
-- refuses negative prices and amounts. Ids and instants are natural numbers, an order number
-- is its day with its counter, and a delivery code is its counter. Codes of coupons are looked
-- up in the normal form the schemas give them. The clock, the ids the database draws and
-- whether the coupon service is wired are an argument, Surroundings. Requests are one step each
-- and happen in some order; a retry after a serialization failure is a new request. The code
-- arranges for that in create_order, which is SERIALIZABLE and locks the products, and where it
-- locks the row that it changes (create_delivery, redemptions). cancel_order,
-- update_order_status and update_delivery_status read the order unlocked at the default
-- isolation, so nothing is said there of two requests that overlap. Loops
-- run over lists; only the graph of a turn has a limit, LangGraph's 25: five nodes run at most,
-- beside the START step, which LangGraph counts too and the model does not. The order
-- of a Python set of ids, which the code leaves open, is that of last
-- occurrences.
--
-- Left out: text that no decision reads (notes, the VAT buyer, the texts of answers), listings and
-- statistics, sending mail, the bodies of the assistant's tools and its streamed events.
-- Language models, the retriever and the safety checker are arguments of the agent's graph; the chat
-- has its screen for emergencies in Support/Safety. Of RAGPipeline.query only that
-- screen and the number of sources are kept.
-- Redis is the records Models/Redis and Models/KeyStore of commands with their documented laws.
-- The knowledge base, embeddings, insights, evaluation and the other validators of input are not
-- modelled: they call models and databases, or compute with floats. A score of a suggestion is exact
-- where the code has a float.
pub mod Base
pub mod Models
pub mod Coupons
pub mod Stock
pub mod Orders
pub mod Deliveries
pub mod Agent
pub mod Auth
pub mod AdminChat
pub mod Phones
pub mod Chat
pub mod Catalogue
pub mod PriceAlerts
pub mod Retrieval
pub mod Reviews
pub mod Support
