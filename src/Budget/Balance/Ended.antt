-- ===== src/Budget/Balance/Ended.antt =====
-- The commitments that entries of the ledger end.
use rmt_platform.Prelude.{
  ℕ, suc, ◌≤◌, String, true, false, Option, some, List, [], ◌∷◌, ◌≡◌, refl, ◌∙◌, inl, inr,
  Bool-cases, if_true, if_false, arith, ◌==◌, string_eq, option_eq, option_beq, if◌then◌else◌, ==→≡,
  subst,
}
use rmt_platform.Budget.Storage.{LedgerEntry, exists}
use rmt_platform.Budget.Balance.{is_terminal, any_time, closes}

-- An entry refers to an identifier that no entry of the ledger has ended.
abbrev pub IsFirstEnd : List LedgerEntry → Option String → Type 0
IsFirstEnd es related =
    (id : String) × (related ≡ some id) × (exists (closes any_time id) es ≡ false)

-- Every settlement and every cancellation is the first end of what it refers to.
abbrev pub IsOnce : List LedgerEntry → Type 0
IsOnce [] = Unit
IsOnce (e ∷ es) = (is_terminal e.entry_type ≡ true → IsFirstEnd es e.related_entry_id) × IsOnce es

-- How many entries end the commitment.
unfoldable pub ends_of : String → List LedgerEntry → ℕ
ends_of id [] = 0
ends_of id (e ∷ es) = let rest = ends_of id es in if closes any_time id e then suc rest else rest

ends_of-none :
    (id : String) (es : List LedgerEntry)
    → exists (closes any_time id) es ≡ false
    → ends_of id es ≡ 0
unfolding exists ends_of
ends_of-none id [] h = refl
ends_of-none id (e ∷ es) h = elim (Bool-cases (closes any_time id e)) [
  | inl ends ↦ absurd (ground (arith, h, ends))
  | inr apart ↦ if_false _ _ _ apart ∙ ends_of-none id es (ground (arith, h, apart))
]

closes-same :
    (id : String) (e : LedgerEntry) {target : String}
    → closes any_time id e ≡ true
    → e.related_entry_id ≡ some target
    → target ≡ id
unfolding option_beq
closes-same id e {target} ends related =
    let refers : (e.related_entry_id == some id) ≡ true = ground (arith, ends) in
    ==→≡ target id (subst (λ o. (o == some id) ≡ true) related refers)

pub once-bound : (id : String) (es : List LedgerEntry) → IsOnce es → ends_of id es ≤ 1
unfolding ends_of
once-bound id [] once = omega arith
once-bound id (e ∷ es) (first, once) = elim (Bool-cases (closes any_time id e)) [
  | inl ends ↦
      let (target, related, new) = first (ground (arith, ends)) in
      let same = closes-same id e ends related in
      let none_before =
        ends_of-none id es (subst (λ i. exists (closes any_time i) es ≡ false) same new) in
      omega (arith, if_true _ (suc (ends_of id es)) (ends_of id es) ends, none_before)
  | inr apart ↦
      omega (arith, if_false _ (suc (ends_of id es)) (ends_of id es) apart, once-bound id es once)
]
