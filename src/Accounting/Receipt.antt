-- ===== src/Accounting/Receipt.antt =====
-- Acquire/Accounting/_receipt.py: receipts of provisional credit notes, and how a value is receipted
-- over several notes.
pub mod Create
use acquire.Base.{ℕ, Bool, true, false, not, Option, none, some, List, [], ◌∷◌, if◌then◌else◌}
use acquire.Base.Int.{ℤ, pos, ◌+ℤ◌, ◌-ℤ◌, ltb_ℤ, leb_ℤ, eqb_ℤ}
use acquire.Base.Result.{Result, ok, err, ◌>>=◌, type_error, value_error}
use acquire.Accounting.Formats.{Formats, create_decimal}
use acquire.Accounting.Notes.{CreditNote, Receipt}

check_receipted : CreditNote → ℤ → Result Receipt
check_receipted note receipted =
    if ltb_ℤ receipted (pos 0)
    then err value_error
    else if ltb_ℤ note.value receipted
    then err value_error
    else ok (record { credit_note = note; receipted_value = receipted })

receipted_or_value : Formats → CreditNote → Option ℤ → Result Receipt
receipted_or_value f note none = ok (record { credit_note = note; receipted_value = note.value })
receipted_or_value f note (some v) = create_decimal f v >>= check_receipted note

-- The constructor, with a credit note and an authorisation.
new_receipt : Formats → CreditNote → Option ℤ → Result Receipt
new_receipt f note receipted =
    if note.is_provisional then receipted_or_value f note receipted else err value_error

unfoldable pub total_value : List CreditNote → ℤ
total_value [] = pos 0
total_value (note ∷ notes) = note.value +ℤ total_value notes

receipt_whole : Formats → List CreditNote → Result (List Receipt)
receipt_whole f [] = ok []
receipt_whole f (note ∷ notes) =
    new_receipt f note none >>= λ r. receipt_whole f notes >>= λ rs. ok (r ∷ rs)

min_ℤ : ℤ → ℤ → ℤ
min_ℤ a b = if ltb_ℤ b a then b else a

-- The loop that takes the difference off the first notes.
receipt_less : Formats → ℤ → List CreditNote → Result (List Receipt)
receipt_less f diff [] = ok []
receipt_less f diff (note ∷ notes) =
    let d = min_ℤ diff note.value in
    new_receipt f note (some (note.value -ℤ d)) >>= λ r.
    receipt_less f (diff -ℤ d) notes >>= λ rs. ok (r ∷ rs)

receipt_total : Formats → List CreditNote → ℤ → Result (List Receipt)
receipt_total f notes receipted =
    let total = total_value notes in
    if ltb_ℤ receipted (pos 0)
    then err value_error
    else if ltb_ℤ total receipted
    then err value_error
    else if eqb_ℤ receipted total
    then receipt_whole f notes
    else receipt_less f (total -ℤ receipted) notes

receipted_or_total : Formats → List CreditNote → Option ℤ → Result ℤ
receipted_or_total f notes none = ok (total_value notes)
receipted_or_total f notes (some v) = create_decimal f v

-- `Receipt.create` of a list of notes. The code returns the receipt of a single note by itself,
-- here it is a list of one.
pub create : Formats → List CreditNote → Option ℤ → Result (List Receipt)
create f [] receipted = err type_error
create f (note ∷ []) receipted = new_receipt f note receipted >>= λ r. ok (r ∷ [])
create f (a ∷ b ∷ notes) receipted =
    receipted_or_total f (a ∷ b ∷ notes) receipted >>= receipt_total f (a ∷ b ∷ notes)
