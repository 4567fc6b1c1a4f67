-- ===== src/Billing/Lifecycle.antt =====
-- The life of a billing record: which changes of status each call can make, and that settling and
-- refunding are final.
use model_hub.Common.{
  String, Option, none, some, Bool, true, false, List, [], ◌∷◌, ◌≡◌, ap, inl, inr, arith, str_eq,
  str_eq_iff, Bool-cases, if◌then◌else◌,
}
use model_hub.Common.Collection.{Collection}
use model_hub.Billing.Types.{BillingStatus, BillingRecord, is_estimated, is_open, Call}
use model_hub.Billing.{
  mark_pre_deducted, settle, mark_refunded, mark_failed, set_status, set_settled, set_refunded,
  set_failed,
}

-- What a call does to the record of its task.
abbrev pub on_record : Call → BillingRecord → BillingRecord
on_record Call.mark_pre_deducted r =
    if is_estimated r.status then set_status BillingStatus.pre_deducted r else r
on_record (Call.settle u c n) r = if is_open r.status then set_settled u c n r else r
on_record (Call.mark_refunded n) r = if is_open r.status then set_refunded n r else r
on_record (Call.mark_failed e) r = set_failed e r

abbrev pub on_found : Call → Option BillingRecord → Option BillingRecord
on_found call none = none
on_found call (some r) = some (on_record call r)

abbrev is_failure : Call → Bool
is_failure (Call.mark_failed e) = true
is_failure _ = false

-- No call in the list marks the record of this task as failed.
abbrev pub NoFailure : String → List (String × Call) → Type 0
NoFailure j [] = Unit
NoFailure j ((task, call) ∷ calls) =
    (str_eq task j ≡ true → is_failure call ≡ false) × NoFailure j calls

abbrev pub IsFinal : BillingStatus → Type 0
IsFinal BillingStatus.settled = Unit
IsFinal BillingStatus.refunded = Unit
IsFinal _ = ⊥

on_record_of_IsFinal :
    (call : Call) (r : BillingRecord)
    → is_failure call ≡ false
    → IsFinal r.status
    → on_record call r ≡ r
on_record_of_IsFinal Call.mark_pre_deducted r h f = ground arith
on_record_of_IsFinal (Call.settle u c n) r h f = ground arith
on_record_of_IsFinal (Call.mark_refunded n) r h f = ground arith
on_record_of_IsFinal (Call.mark_failed e) r h f = cc

module _ (b : Collection BillingRecord) where
  unfoldable pub call_on : String → Call → b.Db → b.Db
  call_on task Call.mark_pre_deducted db = mark_pre_deducted b task db
  call_on task (Call.settle u c n) db = settle b task u c n db
  call_on task (Call.mark_refunded n) db = mark_refunded b task n db
  call_on task (Call.mark_failed e) db = mark_failed b task e db

  unfoldable pub run_calls : List (String × Call) → b.Db → b.Db
  run_calls [] db = db
  run_calls ((task, call) ∷ calls) db = run_calls calls (call_on task call db)

  -- Each call acts on the record of its task as `on_record` says, and on no other record: the reads
  -- before an update and its filter come to one test of the status.
  pub find-call_on :
      (call : Call) (task j : String) (db : b.Db)
      → b.find_one j (call_on task call db)
        ≡ (if str_eq task j then on_found call (b.find_one j db) else b.find_one j db)
  unfolding call_on mark_pre_deducted settle mark_refunded mark_failed
  find-call_on Call.mark_pre_deducted task j db = rw b.find_one-update_one (ground arith)
  find-call_on (Call.settle u c n) task j db = ground (
    arith,
    str_eq_iff task j,
    b.find_one-update_one task j (λ r. is_open r.status) (set_settled u c n) db,
  )
  find-call_on (Call.mark_refunded n) task j db = ground (
    arith,
    str_eq_iff task j,
    b.find_one-update_one task j (λ r. is_open r.status) (set_refunded n) db,
  )
  find-call_on (Call.mark_failed e) task j db = rw b.find_one-update_one (ground arith)

  -- Once a record is settled or refunded, no field of it changes any more, whatever calls are made
  -- for any tasks, as long as none of them marks this record as failed.
  pub find-run_calls_final :
      (calls : List (String × Call)) (j : String) (r : BillingRecord) (db : b.Db)
      → b.find_one j db ≡ some r
      → IsFinal r.status
      → NoFailure j calls
      → b.find_one j (run_calls calls db) ≡ some r
  unfolding run_calls
  find-run_calls_final [] j r db e f h = e
  find-run_calls_final ((task, call) ∷ calls) j r db e f h =
      find-run_calls_final calls j r (call_on task call db)
        (elim (Bool-cases (str_eq task j)) [
          | inl same ↦
              rw (find-call_on call task j db, same, e)
                (ap some (on_record_of_IsFinal call r (h.0 same) f))
          | inr other ↦ rw (find-call_on call task j db, other) e
        ])
        f h.1
