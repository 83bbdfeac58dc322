-- ===== src/Json.antt =====
-- JSON values, whose texts are lists of code points: what app/core/sensitive_data.py and the paths
-- of app/services/visual_flow_service.py walk through.
use test_platform_backend.Prelude.{ℕ, Bool, Text}

mutual
  pub data Json : Type 0 where
    null : Json
    boolean : Bool → Json
    number : ℕ → Json
    text : Text → Json
    array : Items → Json
    object : Fields → Json

  pub data Items : Type 0 where
    no_items : Items
    item : Json → Items → Items

  pub data Fields : Type 0 where
    no_fields : Fields
    field : Text → Json → Fields → Fields
