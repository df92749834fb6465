-- ===== src/Ops/RateLimit/Bound.antt =====
-- How many requests of one principal pass the limiter of ops/ratelimit.py.
use native.Mathlib.Nat.{le_trans}
use rmt_platform.Prelude.{
  ℕ, suc, ◌+◌, ◌-◌, ◌*◌, ◌≤◌, ◌<◌, String, Bool, true, false, Option, none, some, List, [], ◌∷◌,
  ◌≡◌, refl, ap, sym, ◌∙◌, subst, arith, ltb, leb, ◌==◌, string_eq, if◌then◌else◌, All, Bool-cases,
  inl, inr, if_true, if_false, ==-refl, ==→≡,
}
use rmt_platform.Prelude.Dict.{lookup, insert, lookup-insert}
use rmt_platform.Ops.RateLimit.{Key, key_eq, window, Hits, tick, check, retry_after}

-- One request, by its time and its key.
abbrev pub Call : Type 0
Call = ℕ × Key

abbrev pub let_pass : Option ℕ → ℕ
let_pass none = 1
let_pass (some retry) = 0

-- The requests of a key that pass, of a sequence of requests of all keys, each with the limit of
-- its bucket.
unfoldable pub passed : (String → ℕ) → Key → List Call → Hits → ℕ
unfolding check tick
passed limit_of key [] hits = 0
passed limit_of key ((now, k) ∷ cs) hits =
    let (answer, hits') = check now k (limit_of k.bucket) hits in
    let rest = passed limit_of key cs hits' in if k == key then let_pass answer + rest else rest

-- The same, on the window of the key alone.
abbrev passed_alone : ℕ → List ℕ → Option (ℕ × ℕ) → ℕ
passed_alone limit [] w = 0
passed_alone limit (t ∷ ts) w =
    (if ltb limit (tick t w).1 then 0 else 1) + passed_alone limit ts (some (tick t w))

-- The times of the requests of a key.
unfoldable pub times : Key → List Call → List ℕ
times key [] = []
times key ((now, k) ∷ cs) = let rest = times key cs in if k == key then now ∷ rest else rest

-- In one window, no more pass than are left of the limit.
in_window :
    (limit start count : ℕ) (ts : List ℕ)
    → All (λ t. t - start < window) ts
    → passed_alone limit ts (some (start, count)) ≤ limit - count
unfolding tick
in_window limit start count [] h = omega arith
in_window limit start count (t ∷ ts) (h, hs) =
    rw (lt→leb t start h) (ground (arith, in_window limit start (suc count) ts hs))
  where
    lt→leb : (t start : ℕ) → t - start < window → leb window (t - start) ≡ false
    lt→leb t start h = ground arith

-- The times from `a` on, within one window.
abbrev pub Within : ℕ → List ℕ → Type 0
Within a = All (λ t. (a ≤ t) × (t < a + window))

after-Within : (a t : ℕ) (ts : List ℕ) → a ≤ t → Within a ts → All (λ u. u - t < window) ts
after-Within a t [] h w = tt
after-Within a t (u ∷ ts) h (l, ls) = (omega (arith, l.1), after-Within a t ts h ls)

abbrev left : ℕ → Option (ℕ × ℕ) → ℕ
left limit none = 0
left limit (some (start, count)) = limit - count

alone-bound :
    (limit a : ℕ) (ts : List ℕ) (w : Option (ℕ × ℕ))
    → Within a ts
    → passed_alone limit ts w ≤ left limit w + limit
unfolding tick
alone-bound limit a [] w h = omega arith
alone-bound limit a (t ∷ ts) none (l, ls) =
    ground (arith, in_window limit t 1 ts (after-Within a t ts l.0 ls))
alone-bound limit a (t ∷ ts) (some (start, count)) (l, ls) =
    elim (Bool-cases (leb window (t - start))) [
      | inl rolled ↦ rw rolled (ground (arith, in_window limit t 1 ts (after-Within a t ts l.0 ls)))
      | inr stays ↦ rw stays (ground (arith, alone-bound limit a ts (some (start, suc count)) ls))
    ]

let_pass-if :
    (b : Bool) (retry : ℕ) → let_pass (if b then some retry else none) ≡ (if b then 0 else 1)
let_pass-if true retry = refl
let_pass-if false retry = refl

passed_self :
    (limit_of : String → ℕ) (key : Key) (now : ℕ) (cs : List Call) (hits : Hits)
    → passed limit_of key cs (insert key (tick now (lookup key hits)) hits)
      ≡ passed_alone (limit_of key.bucket) (times key cs) (some (tick now (lookup key hits)))
    → passed limit_of key ((now, key) ∷ cs) hits
      ≡ passed_alone (limit_of key.bucket) (times key ((now, key) ∷ cs)) (lookup key hits)
unfolding passed check times
passed_self limit_of key now cs hits h = rw (==-refl {A = Key} key) (
    ap2 (λ x y. x + y)
      (let_pass-if (ltb (limit_of key.bucket) (tick now (lookup key hits)).1)
        (retry_after now (tick now (lookup key hits)).0))
      h)
  where
    ap2 : (f : ℕ → ℕ → ℕ) {a b c d : ℕ} → a ≡ b → c ≡ d → f a c ≡ f b d
    ap2 f p q = λ i. f (p i) (q i)

-- The requests of other keys do not matter.
passed-alone :
    (limit_of : String → ℕ) (key : Key) (cs : List Call) (hits : Hits)
    → passed limit_of key cs hits
      ≡ passed_alone (limit_of key.bucket) (times key cs) (lookup key hits)
unfolding passed check times
passed-alone limit_of key [] hits = refl
passed-alone limit_of key ((now, k) ∷ cs) hits = elim (Bool-cases (k == key)) [
  | inl mine ↦
      subst
        (λ j.
          passed limit_of key ((now, j) ∷ cs) hits
          ≡ passed_alone (limit_of key.bucket) (times key ((now, j) ∷ cs)) (lookup key hits))
        (sym (==→≡ k key mine))
        (passed_self limit_of key now cs hits (
          passed-alone limit_of key cs _
          ∙ ap (passed_alone (limit_of key.bucket) (times key cs))
              (lookup-insert key key _ hits ∙ if_true (key == key) _ _ (==-refl {A = Key} key))))
  | inr other ↦ rw other (
      passed-alone limit_of key cs _
      ∙ ap (passed_alone (limit_of key.bucket) (times key cs))
          (lookup-insert k key _ hits ∙ if_false (k == key) _ _ other))
]

-- Among requests whose times lie within one window of 60 seconds, whatever other keys ask in
-- between and whatever was counted before, at most twice the limit of a key pass; at most the
-- limit, if nothing was counted for the key before.
pub burst-bound :
    (limit_of : String → ℕ) (key : Key) (a : ℕ) (cs : List Call) (hits : Hits)
    → Within a (times key cs)
    → (passed limit_of key cs hits ≤ 2 * limit_of key.bucket)
      × (lookup key hits ≡ none → passed limit_of key cs hits ≤ limit_of key.bucket)
burst-bound limit_of key a cs hits within =
    let bound = alone-bound limit a (times key cs) (lookup key hits) within in
    rw (passed-alone limit_of key cs hits) (
      le_trans bound (left_bound (lookup key hits)),
      λ fresh. le_trans bound (rw fresh (omega arith)),
    )
  where
    limit : ℕ
    limit = limit_of key.bucket

    left_bound : (w : Option (ℕ × ℕ)) → left limit w + limit ≤ 2 * limit
    left_bound none = omega arith
    left_bound (some (start, count)) = omega arith
