-- ===== src/Budget/Balance/Sums.antt =====
-- The sums over the ledger when an entry is added.
use rmt_platform.Prelude.{
  String, Bool, true, false, ◌&&◌, some, List, [], ◌∷◌, ◌≡◌, refl, sym, arith, ◌∙◌, subst, inl, inr,
  Bool-cases, if_true, if_false, some_injective, !=-refl, ◌==◌, ◌!=◌, string_eq, if◌then◌else◌,
}
use rmt_platform.Prelude.Int.{ℤ, ◌+ℤ◌, integers}
use rmt_platform.Budget.Storage.{LedgerEntry, fetch_one}
use rmt_platform.Budget.Balance.{sum_of}

-- No entry has this identifier.
abbrev pub IsNew : String → List LedgerEntry → Type 0
IsNew id [] = Unit
IsNew id (e ∷ es) = ((e.id == id) ≡ false) × IsNew id es

-- The primary key of the ledger.
abbrev pub IsKeyed : List LedgerEntry → Type 0
IsKeyed [] = Unit
IsKeyed (e ∷ es) = IsNew e.id es × IsKeyed es

pub sum_of_ext :
    (p q : LedgerEntry → Bool) (es : List LedgerEntry)
    → ((e : LedgerEntry) → p e ≡ q e)
    → sum_of p es ≡ sum_of q es
unfolding sum_of
sum_of_ext p q [] h = refl
sum_of_ext p q (e ∷ es) h = rw (h e, sum_of_ext p q es h) refl

abbrev pub without : String → (LedgerEntry → Bool) → LedgerEntry → Bool
without id p e = (e.id != id) && p e

pub sum_of-without_new :
    (id : String) (p : LedgerEntry → Bool) (es : List LedgerEntry)
    → IsNew id es
    → sum_of (without id p) es ≡ sum_of p es
unfolding sum_of
sum_of-without_new id p [] h = refl
sum_of-without_new id p (e ∷ es) (h, hs) = rw (h, sum_of-without_new id p es hs) refl

pub fetch_one-IsNew :
    (m : LedgerEntry → Bool) (es : List LedgerEntry) {c : LedgerEntry}
    → (id : String) → fetch_one m es ≡ some c
    → IsNew id es
    → (c.id == id) ≡ false
unfolding fetch_one
fetch_one-IsNew m [] id h new = cc
fetch_one-IsNew m (e ∷ es) {c} id h (new, news) = elim (Bool-cases (m e)) [
  | inl holds ↦
      let same : e ≡ c = some_injective (sym (if_true (m e) _ _ holds) ∙ h) in
      subst (λ f. (f.id == id) ≡ false) same new
  | inr fails ↦ fetch_one-IsNew m es id (sym (if_false (m e) _ _ fails) ∙ h) news
]

add_swap :
    (b d : Bool) (i j sum : ℤ)
    → (if b then i +ℤ (if d then j +ℤ sum else sum) else (if d then j +ℤ sum else sum))
      ≡ (if d then j +ℤ (if b then i +ℤ sum else sum) else (if b then i +ℤ sum else sum))
add_swap true true i j sum = omega integers
add_swap true false i j sum = refl
add_swap false true i j sum = refl
add_swap false false i j sum = refl

-- Leaving one row of a keyed table out of a sum takes its amount away.
pub sum_of-without :
    (m p : LedgerEntry → Bool) (es : List LedgerEntry) {c : LedgerEntry}
    → IsKeyed es
    → fetch_one m es ≡ some c
    → sum_of p es
      ≡ (if p c then c.amount_minor +ℤ sum_of (without c.id p) es else sum_of (without c.id p) es)
unfolding sum_of fetch_one
sum_of-without m p [] keyed h = cc
sum_of-without m p (e ∷ es) {c} (new, keyed) h = elim (Bool-cases (m e)) [
  | inl holds ↦
      let same : e ≡ c = some_injective (sym (if_true (m e) _ _ holds) ∙ h) in
      subst
        (λ d. (if p e then e.amount_minor +ℤ sum_of p es else sum_of p es) ≡ (
          if p d
          then d.amount_minor +ℤ sum_of (without d.id p) (e ∷ es)
          else sum_of (without d.id p) (e ∷ es)))
        same (rw (!=-refl {A = String} e.id, sum_of-without_new e.id p es new) refl)
  | inr fails ↦
      let found = sym (if_false (m e) _ _ fails) ∙ h in
      let apart : (c.id == e.id) ≡ false = fetch_one-IsNew m es e.id found new in
      let reverse : (e.id == c.id) ≡ false =
        ground (arith, string_eq.equals_iff c.id e.id, string_eq.equals_iff e.id c.id) in
      rw (reverse, sum_of-without m p es keyed found) (add_swap (p e) (p c) _ _ _)
]
