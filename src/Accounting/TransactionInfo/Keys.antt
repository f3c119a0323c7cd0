-- ===== src/Accounting/TransactionInfo/Keys.antt =====
-- Acquire/Accounting/_transactioninfo.py: which keys can be read back.
use Prim.{absurd}
use mathlib.Core.Path.{subst}
use mathlib.Core.List.{reverse, reverse-append, reverse-cons}
use acquire.Base.{
  ℕ, suc, ◌+◌, ◌≡◌, refl, sym, ap, ◌∙◌, false, Option, none, some, List, [], ◌∷◌, ◌++◌, arith, All,
  length, length-append,
}
use acquire.Base.Int.{ℤ, pos, neg}
use acquire.Base.Result.{ok, ok_injective, ok_not_err, attribute_error, err, value_error}
use acquire.Accounting.Formats.{Formats, IsFormats}
use acquire.Accounting.TransactionInfo.{
  renewed, rescind_code, TransactionCode, credit, debit, TransactionInfo, encode, to_key,
  is_receipt_code, one_value, parse_values, parse_part, from_key, rescind,
}
use acquire.Accounting.TransactionInfo.Parse.{
  IsEncodable, get_code-code_letters, create_T, parse_part-encode, reversed_key, parse_at-first,
  scan_found, scan_skip, scan_exhausted,
}

length-reverse : (xs : List (List ℕ)) → length (reverse xs) ≡ length xs
length-reverse [] = refl
length-reverse (x ∷ xs) =
    rw (reverse-cons x xs) (omega (arith, length-append (reverse xs) (x ∷ []), length-reverse xs))

module _ (f : Formats) (laws : IsFormats f) (prefix : List (List ℕ)) where
  reverse_key :
      (d u e : List ℕ) → reverse (prefix ++ d ∷ u ∷ e ∷ []) ≡ reversed_key f e u d (reverse prefix)
  reverse_key d u e = reverse-append prefix (d ∷ u ∷ e ∷ [])

  length_key : (d u e : List ℕ) → length (prefix ++ d ∷ u ∷ e ∷ []) ≡ suc (length prefix + 2)
  length_key d u e = omega (arith, length-append prefix (d ∷ u ∷ e ∷ []))

  from_key-first :
      (t : TransactionInfo) (u e : List ℕ)
      → parse_part f t.datetime u e ≡ some t
      → from_key f (prefix ++ f.show_time t.datetime ∷ u ∷ e ∷ []) ≡ ok t
  unfolding from_key
  from_key-first t u e h =
      let d = f.show_time t.datetime in
      rw (reverse_key d u e, length_key d u e)
        (scan_found f _ (length prefix + 2) 0
          (parse_at-first f e u d (reverse prefix) t.datetime (laws.read_show_time t.datetime) ∙ h))

  from_key_unreadable :
      (time : ℕ) (u e : List ℕ)
      → All (λ p. f.read_time p ≡ none) (e ∷ u ∷ reverse prefix)
      → parse_part f time u e ≡ none
      → from_key f (prefix ++ f.show_time time ∷ u ∷ e ∷ []) ≡ err value_error
  unfolding from_key
  from_key_unreadable time u e untimed h =
      let d = f.show_time time in
      rw (reverse_key d u e, length_key d u e)
        (scan_skip f _ (length prefix + 2) 0
            (parse_at-first f e u d (reverse prefix) time (laws.read_show_time time) ∙ h)
          ∙ scan_exhausted f e u d (reverse prefix) (length prefix + 2) 1 untimed (omega arith)
              (omega (arith, length-reverse prefix)))

  from_key-fields :
      (code : Option TransactionCode) (v : ℤ) (r : Option ℤ) (time : ℕ) (uid : List ℕ)
      {parts : List (List ℕ)}
      → IsEncodable
          (record { code = code; value = v; receipted_value = r; datetime = time; uid = uid })
      → to_key f
          (record { code = code; value = v; receipted_value = r; datetime = time; uid = uid })
        ≡ ok parts
      → from_key f (prefix ++ parts)
        ≡ ok (record { code = code; value = v; receipted_value = r; datetime = time; uid = uid })
  unfolding to_key
  from_key-fields none v r time uid h written = cc
  from_key-fields (some code) v r time uid h written =
      ap (λ p. from_key f (prefix ++ p)) (sym (ok_injective written))
      ∙ from_key-first
          (record { code = some code; value = v; receipted_value = r; datetime = time; uid = uid })
          uid (encode f code v r) (parse_part-encode f laws code v r time uid h)

  -- The key that `to_key` writes for small values is read back by `from_key` as the same
  -- information, whatever stands in front of it.
  pub from_key-to_key :
      (t : TransactionInfo) {parts : List (List ℕ)}
      → IsEncodable t
      → to_key f t ≡ ok parts
      → from_key f (prefix ++ parts) ≡ ok t
  from_key-to_key t h written =
      from_key-fields t.code t.value t.receipted_value t.datetime t.uid h written

  parse_rescinded :
      (code : TransactionCode) (v : ℤ) (time : ℕ) (uid : List ℕ)
      → is_receipt_code code ≡ false
      → parse_part f time uid (encode f code v (some (pos 0))) ≡ none
  unfolding parse_part parse_values encode one_value
  parse_rescinded code v time uid h =
      rw
        (
          get_code-code_letters code,
          encode,
          parse_part,
          h,
          create_T f laws v (pos 0),
          parse_values,
          one_value,
        )
        refl

  -- The third part from the end is the only one that holds a time.
  abbrev pub OthersUntimed : List (List ℕ) → Type 0
  OthersUntimed (d ∷ u ∷ e ∷ []) = All (λ p. f.read_time p ≡ none) (e ∷ u ∷ reverse prefix)
  OthersUntimed _ = Unit

  from_key-renewed :
      (t : TransactionInfo) (code : TransactionCode) {t' : TransactionInfo} {parts : List (List ℕ)}
      → is_receipt_code code ≡ false
      → ok (renewed t (some code) t.value) ≡ ok t'
      → to_key f t' ≡ ok parts
      → OthersUntimed parts
      → from_key f (prefix ++ parts) ≡ err value_error
  from_key-renewed t code {t'} {parts} h eq written =
      let e = encode f code t.value (some (pos 0)) in
      let p : ok (f.show_time t.datetime ∷ reverse t.uid ∷ e ∷ []) ≡ ok parts =
        unfold to_key in unfold renewed in ap (to_key f) (ok_injective eq) ∙ written in
      subst (λ q. OthersUntimed q → from_key f (prefix ++ q) ≡ err value_error) (ok_injective p)
        (λ untimed.
          from_key_unreadable t.datetime (reverse t.uid) e untimed
            (parse_rescinded code t.value t.datetime (reverse t.uid) h))

  to_key_without_code :
      (t : TransactionInfo) (v : ℤ) {t' : TransactionInfo}
      → ok (renewed t none v) ≡ ok t'
      → to_key f t' ≡ err attribute_error
  unfolding to_key renewed
  to_key_without_code t v eq = sym (ap (to_key f) (ok_injective eq))

  from_key-rescind_code :
      (t : TransactionInfo) (code : Option TransactionCode) {t' : TransactionInfo}
      {parts : List (List ℕ)}
      → rescind_code t code ≡ ok t'
      → to_key f t' ≡ ok parts
      → OthersUntimed parts
      → from_key f (prefix ++ parts) ≡ err value_error
  unfolding rescind_code is_receipt_code
  from_key-rescind_code t (some TransactionCode.debit) eq written untimed =
      from_key-renewed t credit refl eq written untimed
  from_key-rescind_code t (some TransactionCode.credit) eq written untimed =
      from_key-renewed t debit refl eq written untimed
  from_key-rescind_code t (some TransactionCode.current_liability) eq written untimed =
      absurd (ok_not_err (sym written ∙ to_key_without_code t (neg t.value) eq))
  from_key-rescind_code t (some TransactionCode.account_receivable) eq written untimed =
      absurd (ok_not_err (sym written ∙ to_key_without_code t (neg t.value) eq))
  from_key-rescind_code t none eq written untimed = cc
  from_key-rescind_code t (some TransactionCode.received_receipt) eq written untimed = cc
  from_key-rescind_code t (some TransactionCode.sent_receipt) eq written untimed = cc
  from_key-rescind_code t (some TransactionCode.received_refund) eq written untimed = cc
  from_key-rescind_code t (some TransactionCode.sent_refund) eq written untimed = cc

  -- What `rescind` returns is either refused by `to_key` or written as a key that `from_key` cannot
  -- read, where no part of the key but the third from its end holds a time.
  pub from_key-rescind :
      (t : TransactionInfo) {t' : TransactionInfo} {parts : List (List ℕ)}
      → rescind t ≡ ok t'
      → to_key f t' ≡ ok parts
      → OthersUntimed parts
      → from_key f (prefix ++ parts) ≡ err value_error
  unfolding rescind
  from_key-rescind t eq written untimed = from_key-rescind_code t t.code eq written untimed
