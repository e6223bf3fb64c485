-- ===== src/Hypotheses/Log.antt =====
-- research/lab/hypothesis.py: the log as a map from ids to hypotheses.
use text.Mathlib.Text.{◌==◌ as str_eq}
use text.Mathlib.TextEquality.{eq_iff}
use text.Mathlib.TextPositions.{eq_refl}
use kalshi.Common.{
  ◌≡◌, ◌⊎◌, refl, sym, subst, ◌∙◌, inl, inr, true, Option, none, some, List, [], ◌∷◌, ◌++◌, String,
  Dict, lookup, insert, lookup-insert, is_truthy, arith, if◌then◌else◌, Bool-cases, Option-cases,
}
use kalshi.Hypotheses.{
  Hypothesis, Row, hypothesis_row, broken_row, Reply, replied, unknown_id, replay, load_state, hash,
  register, change, claimed, claim, judged, update, opened,
}

replay-append :
    (state : Dict Hypothesis) (rows : List Row) (h : Hypothesis) {state' : Dict Hypothesis}
    → replay state rows ≡ some state'
    → is_truthy (some h.id) ≡ true
    → replay state (rows ++ hypothesis_row h ∷ []) ≡ some (insert h.id h state')
replay-append state [] h loaded named = ground arith
replay-append state (broken_row ∷ rows) h loaded named = ground arith
replay-append state (hypothesis_row g ∷ rows) h loaded named =
    elim (Bool-cases (is_truthy (some g.id))) [
      | inl kept ↦ rw kept (replay-append (insert g.id g state) rows h (rw kept at loaded) named)
      | inr skipped ↦ rw skipped (replay-append state rows h (rw skipped at loaded) named)
    ]

pub load_state-append :
    (rows : List Row) (h : Hypothesis) {state : Dict Hypothesis}
    → load_state rows ≡ some state
    → is_truthy (some h.id) ≡ true
    → load_state (rows ++ hypothesis_row h ∷ []) ≡ some (insert h.id h state)
unfolding load_state
load_state-append rows h = replay-append [] rows h

replay-broken :
    (state : Dict Hypothesis) (rows more : List Row)
    → replay state (rows ++ (broken_row ∷ more)) ≡ none
replay-broken state [] more = refl
replay-broken state (broken_row ∷ rows) more = refl
replay-broken state (hypothesis_row g ∷ rows) more = elim (Bool-cases (is_truthy (some g.id))) [
  | inl kept ↦ rw kept (replay-broken (insert g.id g state) rows more)
  | inr skipped ↦ rw skipped (replay-broken state rows more)
]

pub load_state-broken : (rows more : List Row) → load_state (rows ++ (broken_row ∷ more)) ≡ none
unfolding load_state
load_state-broken rows more = replay-broken [] rows more

-- Each entry stands under its own id, which is not empty.
abbrev pub IsKeyed : Dict Hypothesis → Type 0
IsKeyed [] = Unit
IsKeyed ((k, h) ∷ rest) = (h.id ≡ k) × (is_truthy (some k) ≡ true) × IsKeyed rest

insert-IsKeyed :
    (h : Hypothesis) (m : Dict Hypothesis)
    → is_truthy (some h.id) ≡ true
    → IsKeyed m
    → IsKeyed (insert h.id h m)
unfolding insert
insert-IsKeyed h [] named keyed = (refl, named, tt)
insert-IsKeyed h ((k, g) ∷ m) named (same, truthy, keyed) = elim (Bool-cases (str_eq k h.id)) [
  | inl here ↦ rw here (refl, named, keyed)
  | inr there ↦ rw there (same, truthy, insert-IsKeyed h m named keyed)
]

-- What holds of the state that a log replays to, if it does.
abbrev pub Loads : (Dict Hypothesis → Type 0) → Option (Dict Hypothesis) → Type 0
Loads P none = Unit
Loads P (some state) = P state

replay-IsKeyed :
    (state : Dict Hypothesis) (rows : List Row) → IsKeyed state → Loads IsKeyed (replay state rows)
replay-IsKeyed state [] keyed = keyed
replay-IsKeyed state (broken_row ∷ rows) keyed = tt
replay-IsKeyed state (hypothesis_row g ∷ rows) keyed = elim (Bool-cases (is_truthy (some g.id))) [
  | inl kept ↦
      rw kept (replay-IsKeyed (insert g.id g state) rows (insert-IsKeyed g state kept keyed))
  | inr skipped ↦ rw skipped (replay-IsKeyed state rows keyed)
]

pub load_state-IsKeyed :
    (rows : List Row) {state : Dict Hypothesis} → load_state rows ≡ some state → IsKeyed state
unfolding load_state
load_state-IsKeyed rows loaded = subst (Loads IsKeyed) loaded (replay-IsKeyed [] rows tt)

pub lookup-IsKeyed :
    (k : String) (m : Dict Hypothesis) {h : Hypothesis}
    → IsKeyed m
    → lookup k m ≡ some h
    → (h.id ≡ k) × (is_truthy (some k) ≡ true)
unfolding lookup
lookup-IsKeyed k [] keyed found = ground arith
lookup-IsKeyed k ((j, g) ∷ m) {h} (same, truthy, keyed) found = elim (Bool-cases (str_eq j k)) [
  | inl here ↦ ground (arith, (eq_iff j k).0 here, rw here at found, same, truthy)
  | inr there ↦ lookup-IsKeyed k m keyed (rw there at found)
]

-- What a change of one hypothesis replies, and does to the map that the log stands for.
abbrev pub IsChange :
    Reply (Hypothesis × List Row) → (Hypothesis → Hypothesis) → String → Dict Hypothesis → Type 0
IsChange reply f id state =
    ((lookup id state ≡ none) × (reply ≡ unknown_id))
    ⊎ ((h : Hypothesis) × (rows' : List Row) × (state' : Dict Hypothesis) × (lookup id state
          ≡ some h)
        × (reply ≡ replied (f h, rows'))
        × (load_state rows' ≡ some state')
        × ((other : String)
            → lookup other state' ≡ (if str_eq id other then some (f h) else lookup other state)))

change_lem :
    (hyp_id : String) (f : Hypothesis → Hypothesis) (rows : List Row) {state : Dict Hypothesis}
    → ((h : Hypothesis) → (f h).id ≡ h.id)
    → load_state rows ≡ some state
    → IsChange (change hyp_id f rows) f hyp_id state
change_lem hyp_id f rows {state} keeps loaded = elim (Option-cases (lookup hyp_id state)) [
  | inl unknown ↦ inl (unknown, rw (loaded, unknown, change) refl)
  | inr (h, found) ↦
      let (own, truthy) = lookup-IsKeyed hyp_id state (load_state-IsKeyed rows loaded) found in
      let same : (f h).id ≡ hyp_id = keeps h ∙ own in
      inr (
        h,
        rows ++ hypothesis_row (f h) ∷ [],
        insert (f h).id (f h) state,
        found,
        rw (loaded, found, change) refl,
        load_state-append rows (f h) loaded (rw same truthy),
        (λ other.
            subst
              (λ (k : String).
                lookup other (insert k (f h) state)
                ≡ (if str_eq hyp_id other then some (f h) else lookup other state))
              (sym same) (lookup-insert hyp_id other (f h) state)),
      )
]

-- A registry without broken rows is a map that the log keeps: claiming a hypothesis or updating it
-- replies that the id is unknown, or with the changed hypothesis, and replaying the longer log
-- gives the map changed at that id alone.
pub claim-update_refine :
    (now id agent : String) (verdict : Option String) (results : Dict String)
    (status : Option String)
    → (rows : List Row) {state : Dict Hypothesis} → load_state rows ≡ some state
    → IsChange (claim now id agent rows) (claimed now agent) id state
      × IsChange
          (update now id verdict results status rows)
          (judged now verdict results status)
          id
          state
unfolding claim update
claim-update_refine now id agent verdict results status rows loaded = (
  change_lem id (claimed now agent) rows (λ h. refl) loaded,
  change_lem id (judged now verdict results status) rows (λ h. refl) loaded,
)

module _ (normalize digest : String → String) where
  -- In a registry without broken rows, registering an idea again, whatever its other fields are,
  -- replies with the hypothesis of the first time and appends nothing, if digests are not empty.
  pub register_again :
      (now now' : String) (g h : Hypothesis) (rows : List Row) {state : Dict Hypothesis}
      → ((s : String) → is_truthy (some (digest s)) ≡ true)
      → load_state rows ≡ some state
      → hash normalize digest h ≡ hash normalize digest g
      → (x : Hypothesis) × (rows' : List Row) × (register normalize digest now g rows
          ≡ replied (x, rows'))
        × (register normalize digest now' h rows' ≡ replied (x, rows'))
  unfolding register
  register_again now now' g h rows {state} digests loaded same =
      let known : (i : String) (e : Hypothesis) (rows' : List Row) (state' : Dict Hypothesis)
          → load_state rows' ≡ some state'
          → lookup (hash normalize digest g) state' ≡ some e
          → register normalize digest i h rows' ≡ replied (e, rows') =
        (λ i e rows' state' l found. rw (l, same, found, register) refl) in
      elim (Option-cases (lookup (hash normalize digest g) state)) [
        | inr (e, found) ↦
            (e, rows, rw (loaded, found, register) refl, known now' e rows state loaded found)
        | inl absent ↦
            let id = hash normalize digest g in
            let new = opened now id g in
            let rows' = rows ++ hypothesis_row new ∷ [] in
            (
              new,
              rows',
              rw (loaded, absent, register) refl,
              known now' new rows' (insert id new state)
                  (load_state-append rows new loaded (digests _))
                  (ground (arith, lookup-insert id id new state, eq_refl id)),
            )
      ]
