-- ===== src/Recovery/Live.antt =====
-- Which processes count as dead.
use oxana.Base.{
  ℕ, ◌+◌, ◌≤◌, String, Bool, true, false, List, [], ◌∷◌, ◌++◌, ◌≡◌, refl, ◌∙◌, ap, arith, str_eq,
  eq_iff, ◌||◌, Bool-cases, inl, inr, if◌then◌else◌,
}
use oxana.Base.Lists.{elem}
use oxana.Recovery.{last_part, names_of, stale, unrecorded, dead_process_ids_in}

elem-append : (i : String) (xs ys : List String) → elem i (xs ++ ys) ≡ elem i xs || elem i ys
unfolding elem
elem-append i [] ys = refl
elem-append i (x ∷ xs) ys = ground (arith, elem-append i xs ys)

-- A record of the process, of which each is fresh.
abbrev pub AllFresh : String → ℕ → ℕ → List (String × ℕ) → Type 0
AllFresh id now threshold [] = Unit {0}
AllFresh id now threshold ((other, score) ∷ rest) =
    (other ≡ id → now ≤ score + threshold) × AllFresh id now threshold rest

stale-fresh :
    (id : String) (now threshold : ℕ) (processes : List (String × ℕ))
    → AllFresh id now threshold processes
    → elem id (stale now threshold processes) ≡ false
unfolding elem stale
stale-fresh id now threshold [] fresh = refl
stale-fresh id now threshold ((other, score) ∷ rest) fresh =
    ground (arith, stale-fresh id now threshold rest fresh.1, eq_iff other id, fresh.0)

unrecorded-active :
    (id : String) (active queues : List String)
    → elem id active ≡ true
    → elem id (unrecorded active queues) ≡ false
unfolding elem unrecorded
unrecorded-active id active [] h = refl
unrecorded-active id active (q ∷ qs) h =
    added (last_part q) (unrecorded active qs) (elem (last_part q) active) refl
      (unrecorded-active id active qs h)
  where
    added :
        (name : String) (rest : List String) (b : Bool)
        → elem name active ≡ b
        → elem id rest ≡ false
        → elem id (if b then rest else name ∷ rest) ≡ false
    added name rest true e k = k
    added name rest false e k = elim (Bool-cases (str_eq name id)) [
      | inl same ↦ cc (ap (λ x. elem x active) ((eq_iff name id).0 same), e, h)
      | inr other ↦ rw other k
    ]

-- A process whose records are all fresh, of which there is one, does not count as dead, whatever
-- lists there are.
pub live-not_dead :
    (id : String) (processes : List (String × ℕ)) (queues : List String) (now threshold : ℕ)
    → AllFresh id now threshold processes
    → elem id (names_of processes) ≡ true
    → elem id (dead_process_ids_in processes queues now threshold) ≡ false
unfolding dead_process_ids_in
live-not_dead id processes queues now threshold fresh known =
    elem-append id (stale now threshold processes) (unrecorded (names_of processes) queues)
    ∙ rw (stale-fresh id now threshold processes fresh)
        (unrecorded-active id (names_of processes) queues known)
