-- ===== src/State/RunUpdate/Fields.antt =====
-- `UpdateWith` as an overlay of fields: what the empty update, a repeated update and two updates
-- in a row do.
use flotilla_os.Common.{String, List, Option, none, some, ◌≡◌, refl, arith}
use flotilla_os.State.Types.{Run, Record}
use flotilla_os.State.RunUpdate.{
  over_text, over_pointer, over_text_pointer, over_records, update_status, update_with, zero_run,
  status_precedence,
}
use flotilla_os.State.RunUpdate.Status.{update_status_idem}

over_text_assoc : (a b c : String) → over_text (over_text a b) c ≡ over_text a (over_text b c)
over_text_assoc a b c = ground arith

over_pointer_assoc {ℓ} :
    {A : Type ℓ} (a b c : Option A)
    → over_pointer (over_pointer a b) c ≡ over_pointer a (over_pointer b c)
over_pointer_assoc a b none = refl
over_pointer_assoc a b (some c) = refl

over_text_pointer_assoc :
    (a b c : Option String)
    → over_text_pointer (over_text_pointer a b) c ≡ over_text_pointer a (over_text_pointer b c)
over_text_pointer_assoc a b c = ground arith

over_records_assoc :
    (a b c : Option (List Record))
    → over_records (over_records a b) c ≡ over_records a (over_records b c)
over_records_assoc a b c = ground arith

ruleset overlays =
    (over_text_assoc, over_pointer_assoc, over_text_pointer_assoc, over_records_assoc)

-- A run whose status is put aside.
abbrev pub statusless : Run → Run
statusless r = record r { status = "" }

-- Two updates in a row leave every field but the status as their combination, the first updated
-- with the second, leaves it: the later value wins field by field.
update_with_assoc :
    (d a b : Run)
    → statusless (update_with (update_with d a) b) ≡ statusless (update_with d (update_with a b))
unfolding update_with
update_with_assoc d a b = simp overlays

over_text_idem : (a b : String) → over_text (over_text a b) b ≡ over_text a b
over_text_idem a b = ground arith

over_pointer_idem {ℓ} :
    {A : Type ℓ} (a b : Option A) → over_pointer (over_pointer a b) b ≡ over_pointer a b
over_pointer_idem a none = refl
over_pointer_idem a (some b) = refl

over_text_pointer_idem :
    (a b : Option String) → over_text_pointer (over_text_pointer a b) b ≡ over_text_pointer a b
over_text_pointer_idem a b = ground arith

over_records_idem :
    (a b : Option (List Record)) → over_records (over_records a b) b ≡ over_records a b
over_records_idem a b = ground arith

ruleset repeats = (
  over_text_idem, over_pointer_idem, over_text_pointer_idem, over_records_idem, update_status_idem,
)

-- An update that lands twice, as a retried write does, leaves the run as it lands once.
pub update_with_idem : (d u : Run) → update_with (update_with d u) u ≡ update_with d u
unfolding update_with
update_with_idem d u = simp repeats

-- The empty update changes nothing.
pub update_with-zero_run : (d : Run) → update_with d zero_run ≡ d
unfolding update_with update_status status_precedence
update_with-zero_run d = ground arith
