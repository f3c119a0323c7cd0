-- ===== src/Accounting/Receipt/Create.antt =====
-- `Receipt.create` of Acquire/Accounting/_receipt.py: the receipts add up to the receipted value.
use acquire.Base.{
  ◌≡◌, refl, ◌∙◌, ap, inl, inr, true, false, some, List, [], ◌∷◌, All, arith, Bool-cases,
}
use acquire.Base.Int.{ℤ, pos, ◌+ℤ◌, ◌-ℤ◌, ◌≤ℤ◌, neg, ltb_ℤ, eqb_ℤ, int_laws, eqb_ℤ_eq}
use acquire.Base.Result.{Result, ok}
use acquire.Accounting.Formats.{Formats, IsFormats, create_small, IsSmall}
use acquire.Accounting.Notes.{CreditNote, Receipt}
use acquire.Accounting.Receipt.{
  check_receipted, receipted_or_value, new_receipt, total_value, receipt_whole, min_ℤ, receipt_less,
  receipt_total, receipted_or_total, create,
}

-- A note that can be receipted.
abbrev pub IsReceiptable : CreditNote → Type 0
IsReceiptable note = (note.is_provisional ≡ true) × (pos 0 ≤ℤ note.value) × IsSmall note.value

abbrev pub IsWithin : Receipt → Type 0
IsWithin r = (pos 0 ≤ℤ r.receipted_value) × (r.receipted_value ≤ℤ r.credit_note.value)

pub total_receipted : List Receipt → ℤ
total_receipted [] = pos 0
total_receipted (r ∷ rs) = r.receipted_value +ℤ total_receipted rs

pub noted : List Receipt → List CreditNote
noted [] = []
noted (r ∷ rs) = r.credit_note ∷ noted rs

-- Receipts of exactly these notes, each within its note's value, with this total.
abbrev pub IsReceipts : List CreditNote → ℤ → Result (List Receipt) → Type 0
IsReceipts notes total call =
    (rs : List Receipt) × (call ≡ ok rs)
    × (noted rs ≡ notes)
    × All IsWithin rs
    × (total_receipted rs ≡ total)

total_value_low : (notes : List CreditNote) → All IsReceiptable notes → pos 0 ≤ℤ total_value notes
unfolding total_value
total_value_low [] h = omega arith
total_value_low (note ∷ notes) h = omega (int_laws, h.0.1, total_value_low notes h.1)

-- The difference is taken off the note as far as it goes, and what is left fits the other notes.
abbrev IsShare : ℤ → ℤ → ℤ → ℤ → Type 0
IsShare diff v rest d = (pos 0 ≤ℤ d) × (d ≤ℤ v) × (pos 0 ≤ℤ diff -ℤ d) × (diff -ℤ d ≤ℤ rest)

min_ℤ-IsShare :
    (diff v rest : ℤ)
    → pos 0 ≤ℤ diff
    → pos 0 ≤ℤ v
    → pos 0 ≤ℤ rest
    → diff ≤ℤ v +ℤ rest
    → IsShare diff v rest (min_ℤ diff v)
unfolding min_ℤ
min_ℤ-IsShare diff v rest low lowv lowr high = elim (Bool-cases (ltb_ℤ v diff)) [
  | inl h ↦
      let less : v ≤ℤ diff = ground (arith, h) in
      rw h (lowv, omega arith, omega (int_laws, less), omega (int_laws, high))
  | inr h ↦
      let less : diff ≤ℤ v = ground (arith, h) in
      rw h (low, less, omega int_laws, omega (int_laws, lowr))
]

module _ (f : Formats) (laws : IsFormats f) where
  IsSmall-between : (r v : ℤ) → pos 0 ≤ℤ r → r ≤ℤ v → IsSmall v → IsSmall r
  unfolding neg
  IsSmall-between r v low high small =
      (omega (int_laws, low, high, small.0), ground (arith, low, high, small.0))

  new_receipt_lem :
      (note : CreditNote) (r : ℤ)
      → IsReceiptable note
      → pos 0 ≤ℤ r
      → r ≤ℤ note.value
      → new_receipt f note (some r) ≡ ok (record { credit_note = note; receipted_value = r })
  unfolding new_receipt receipted_or_value check_receipted
  new_receipt_lem note r h low high =
      rw (h.0, create_small f laws r (IsSmall-between r note.value low high h.2))
        (ground (arith, low, high))

  receipt_less-IsReceipts :
      (notes : List CreditNote) (diff : ℤ)
      → All IsReceiptable notes
      → pos 0 ≤ℤ diff
      → diff ≤ℤ total_value notes
      → IsReceipts notes (total_value notes -ℤ diff) (receipt_less f diff notes)
  unfolding receipt_less total_value total_receipted noted
  receipt_less-IsReceipts [] diff h low high = ([], refl, refl, tt, omega (int_laws, low, high))
  receipt_less-IsReceipts (note ∷ notes) diff h low high =
      let d = min_ℤ diff note.value in
      let (d_low, d_high, left_low, left_high) =
        min_ℤ-IsShare diff note.value (total_value notes) low h.0.1 (total_value_low notes h.1)
          high in
      let r_low : pos 0 ≤ℤ note.value -ℤ d = omega (int_laws, d_high) in
      let r_high : note.value -ℤ d ≤ℤ note.value = omega (int_laws, d_low) in
      let (rs, made, same, within, total) =
        receipt_less-IsReceipts notes (diff -ℤ d) h.1 left_low left_high in
      let r : Receipt = record { credit_note = note; receipted_value = note.value -ℤ d } in
      (
        r ∷ rs,
        rw (new_receipt_lem note (note.value -ℤ d) h.0 r_low r_high, made) refl,
        ap (λ ns. note ∷ ns) same,
        ((r_low, r_high), within),
        ap (λ t. note.value -ℤ d +ℤ t) total ∙ omega int_laws,
      )

  receipt_whole-IsReceipts :
      (notes : List CreditNote)
      → All IsReceiptable notes
      → IsReceipts notes (total_value notes) (receipt_whole f notes)
  unfolding receipt_whole total_value total_receipted noted new_receipt receipted_or_value
  receipt_whole-IsReceipts [] h = ([], refl, refl, tt, refl)
  receipt_whole-IsReceipts (note ∷ notes) h =
      let (rs, made, same, within, total) = receipt_whole-IsReceipts notes h.1 in
      (
        record { credit_note = note; receipted_value = note.value } ∷ rs,
        rw (h.0.0, made) refl,
        ap (λ ns. note ∷ ns) same,
        ((h.0.1, omega arith), within),
        ap (λ t. note.value +ℤ t) total,
      )

  receipt_total-IsReceipts :
      (notes : List CreditNote) (w : ℤ)
      → All IsReceiptable notes
      → pos 0 ≤ℤ w
      → w ≤ℤ total_value notes
      → IsReceipts notes w (receipt_total f notes w)
  unfolding receipt_total
  receipt_total-IsReceipts notes w h low high =
      let not_low : ltb_ℤ w (pos 0) ≡ false = ground (arith, low) in
      let not_high : ltb_ℤ (total_value notes) w ≡ false = ground (arith, high) in
      elim (Bool-cases (eqb_ℤ w (total_value notes))) [
        | inl same ↦
            rw (not_low, not_high, same, eqb_ℤ_eq w (total_value notes) same)
              (receipt_whole-IsReceipts notes h)
        | inr less ↦
            let diff = total_value notes -ℤ w in
            let (rs, made, same, within, total) =
              receipt_less-IsReceipts notes diff h (omega (int_laws, high))
                (omega (int_laws, low)) in
            rw (not_low, not_high, less) (rs, made, same, within, total ∙ omega int_laws)
      ]

  -- Where every note is provisional with a small value from 0 up, and the receipted value is small
  -- and lies between 0 and the sum of the notes, `create` returns receipts of exactly these notes in
  -- their order, each between 0 and its note's value, that add up to the receipted value.
  pub create-IsReceipts :
      (note : CreditNote) (notes : List CreditNote) (w : ℤ)
      → All IsReceiptable (note ∷ notes)
      → pos 0 ≤ℤ w
      → w ≤ℤ total_value (note ∷ notes)
      → IsSmall w
      → IsReceipts (note ∷ notes) w (create f (note ∷ notes) (some w))
  unfolding create receipted_or_total noted total_receipted
  create-IsReceipts note [] w h low high small =
      let w_high : w ≤ℤ note.value = unfold total_value in omega (int_laws, high) in
      (
        record { credit_note = note; receipted_value = w } ∷ [],
        rw (new_receipt_lem note w h.0 low w_high) refl,
        refl,
        ((low, w_high), tt),
        omega int_laws,
      )
  create-IsReceipts note (b ∷ notes) w h low high small =
      rw (create_small f laws w small) (receipt_total-IsReceipts (note ∷ b ∷ notes) w h low high)
