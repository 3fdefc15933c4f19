-- ===== src/Agent/Policy.antt =====
-- backend/app/agent/tools/registry.py: what each tool demands of its caller.
use qiki.Base.{Bool, true, false, String, if◌then◌else◌}
use text.Mathlib.Text.{◌==◌ as str_eq}

pub data ToolMode : Type 0 where
  read write : ToolMode

pub record ToolAuthPolicy : Type 0 where
  pub mode : ToolMode
  pub requires_auth : Bool
  pub requires_confirm : Bool

abbrev pub read_public : ToolAuthPolicy
read_public = record { mode = ToolMode.read; requires_auth = false; requires_confirm = false }

abbrev pub write_auth_confirm : ToolAuthPolicy
write_auth_confirm = record { mode = ToolMode.write; requires_auth = true; requires_confirm = true }

abbrev pub read_auth : ToolAuthPolicy
read_auth = record { mode = ToolMode.read; requires_auth = true; requires_confirm = false }

-- `TOOL_AUTH_REGISTRY.get(tool_name, _WRITE_AUTH_CONFIRM)`: a name without an entry gets the most
-- restrictive policy.
unfoldable pub get_tool_policy : String → ToolAuthPolicy
get_tool_policy name =
    if str_eq name "search_products"
    then read_public
    else if str_eq name "check_inventory"
    then read_public
    else if str_eq name "lookup_safety_policy"
    then read_public
    else if str_eq name "recommend_products"
    then read_public
    else if str_eq name "_mock_create_order_example"
    then write_auth_confirm
    else if str_eq name "_mock_customer_history_example"
    then read_auth
    else write_auth_confirm
