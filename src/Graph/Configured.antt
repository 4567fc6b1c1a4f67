-- ===== src/Graph/Configured.antt =====
-- When the data of a workflow's node passes the checks (`validate` of
-- src/workflow/execution-graph.resolver.ts).
use model_hub.Common.{
  String, List, [], ◌∷◌, ◌++◌, Bool, true, false, not, ◌&&◌, ◌||◌, Option, ◌≡◌, ◌↔◌, refl, ap, ◌∙◌,
  str_eq, str_eq_iff, if◌then◌else◌, arith,
}
use model_hub.Common.OrderedMap.{str_eq_sym}
use model_hub.Graph.{WorkflowNode}
use model_hub.Graph.Validate.{
  NodeData, ValidationError, is_set, has_rules, has_loop, data_of, is_model_backed, config_errors,
  when,
}

-- A node has what its type asks for.
abbrev pub is_configured : WorkflowNode (Option NodeData) → Bool
is_configured n =
    if str_eq n.type "condition"
    then has_rules (data_of n).conditions
    else if str_eq n.type "loop"
    then has_loop (data_of n).loop_config
    else if str_eq n.type "transform"
    then is_set (data_of n).transform
    else if str_eq n.type "input" || str_eq n.type "output"
    then true
    else is_set (data_of n).model_id

pub not-not : {b : Bool} → not b ≡ false → b ≡ true
not-not h = ground arith

one_kind : (t a b : String) → str_eq a b ≡ false → str_eq t a ≡ true → str_eq t b ≡ false
one_kind t a b apart h = ap (λ x. str_eq x b) ((str_eq_iff t a).0 h) ∙ apart

model_backed :
    (n : WorkflowNode (Option NodeData))
    → is_model_backed n
      ≡ not (
          str_eq n.type "condition"
          || (str_eq n.type "loop"
              || (str_eq n.type "input" || (str_eq n.type "output" || str_eq n.type "transform"))))
model_backed n = ground (
  arith,
  str_eq_sym n.type "condition",
  str_eq_sym n.type "loop",
  str_eq_sym n.type "input",
  str_eq_sym n.type "output",
  str_eq_sym n.type "transform",
)

kinds_agree :
    (c l t i o b m r p x : Bool) (id : String)
    → b ≡ not (c || (l || (i || (o || t))))
    → (c ≡ true → l ≡ false)
    → (c ≡ true → t ≡ false)
    → (l ≡ true → t ≡ false)
    → ((if b && not m
          then ValidationError.no_model id ∷ []
          else if c && not r
          then ValidationError.no_conditions id ∷ []
          else if l && not p
          then ValidationError.no_loop_config id ∷ []
          else if t && not x
          then ValidationError.no_expression id ∷ []
          else [])
        ≡ [])
      ↔ ((if c then r else if l then p else if t then x else if i || o then true else m) ≡ true)
kinds_agree c l t i o b m r p x id hb hcl hct hlt = (λ h. ground arith, λ h. ground arith)

pub nil_both : {A : Type 0} (xs ys : List A) → (xs ++ ys ≡ []) ↔ ((xs ≡ []) × (ys ≡ []))
nil_both [] ys = (λ h. (refl, h), λ h. h.1)
nil_both (x ∷ xs) ys = (λ h. ground arith, λ h. ground arith)

pub when-none : (b : Bool) (e : ValidationError) → (when b e ≡ []) ↔ (b ≡ false)
when-none true e = (λ h. ground arith, λ h. ground arith)
when-none false e = (λ h. refl, λ h. refl)

pub config_errors-none :
    (n : WorkflowNode (Option NodeData)) → (config_errors n ≡ []) ↔ (is_configured n ≡ true)
unfolding config_errors
config_errors-none n =
    kinds_agree (str_eq n.type "condition") (str_eq n.type "loop") (str_eq n.type "transform")
      (str_eq n.type "input") (str_eq n.type "output") (is_model_backed n)
      (is_set (data_of n).model_id) (has_rules (data_of n).conditions)
      (has_loop (data_of n).loop_config) (is_set (data_of n).transform) n.id (model_backed n)
      (one_kind n.type "condition" "loop" refl) (one_kind n.type "condition" "transform" refl)
      (one_kind n.type "loop" "transform" refl)
