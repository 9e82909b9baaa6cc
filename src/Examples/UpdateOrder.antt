-- ===== src/Examples/UpdateOrder.antt =====
-- src/assuming_signal_update_order/workflow.go: the update handlers, over the changes in the order in
-- which they are delivered before the "done" signal. An ID is the list of its bytes.
use temporal_mistakes.Base.{
  ℕ, Bool, true, false, ◌&&◌, ◌||◌, not, String, List, [], ◌∷◌, ltb, ◌==◌, if◌then◌else◌,
}

pub record Change : Type 0 where
  pub id : List ℕ
  pub content : String

-- `a <= b` on strings
unfoldable pub leb_bytes : List ℕ → List ℕ → Bool
leb_bytes [] b = true
leb_bytes (x ∷ a) [] = false
leb_bytes (x ∷ a) (y ∷ b) = let rest = leb_bytes a b in ltb x y || (x == y && rest)

-- MyWorkflowV1: the handler keeps whatever comes last.
unfoldable pub apply_all : String → List Change → String
apply_all last_data [] = last_data
apply_all last_data (c ∷ cs) = apply_all c.content cs

unfoldable pub my_workflow_v1 : List Change → String
my_workflow_v1 cs = apply_all "" cs

-- The variables of MyWorkflowV2.
pub record Latest : Type 0 where
  pub last_id : List ℕ
  pub last_data : String

-- The validator accepts the change.
unfoldable pub is_in_order : Latest → Change → Bool
is_in_order s c = not (leb_bytes c.id s.last_id)

-- The validator, and the handler if it accepts.
unfoldable pub update : Latest → Change → Latest
update s c = if is_in_order s c then record { last_id = c.id; last_data = c.content } else s

unfoldable pub update_all : Latest → List Change → Latest
update_all s [] = s
update_all s (c ∷ cs) = update_all (update s c) cs

abbrev pub no_update : Latest
no_update = record { last_id = []; last_data = "" }

unfoldable pub my_workflow_v2 : List Change → String
my_workflow_v2 cs = (update_all no_update cs).last_data
