-- ===== src/Flags/Match.antt =====
-- The two ways in which the flags of a challenge combine, and when a comparison is an error.
use flagfish.Prelude.{
  ◌≡◌, ◌≢◌, refl, ◌⊎◌, inl, inr, Bool, true, false, ◌&&◌, ◌||◌, Option, none, List, [], ◌∷◌, All,
  arith,
}
use flagfish.Flags.Space.{Bytes}
use flagfish.Flags.{
  Flag, Kind, static, regex, other, Fault, Answer, answer, refused, validate, match_kind,
  match_flag, any_loop, match_any, all_loop, match_all,
}

abbrev pub or' : List Bool → Bool
or' [] = false
or' (b ∷ bs) = b || or' bs

abbrev pub and' : List Bool → Bool
and' [] = true
and' (b ∷ bs) = b && and' bs

-- `MatchAll` of no flag is no match
abbrev pub and_some : List Bool → Bool
and_some [] = false
and_some (b ∷ bs) = b && and' bs

module _ (compile : Bytes → Option (Bytes → Bool)) (provided : Bytes) where
  -- the verdicts of the flags, one by one
  abbrev pub Verdicts : List Flag → List Bool → Type 0
  Verdicts [] [] = Unit
  Verdicts [] (b ∷ bs) = ⊥
  Verdicts (f ∷ fs) [] = ⊥
  Verdicts (f ∷ fs) (b ∷ bs) = (match_flag compile f provided ≡ answer b) × Verdicts fs bs

  -- some flag of the list is refused, with this error
  abbrev pub Refuses : Fault → List Flag → Type 0
  Refuses e [] = ⊥
  Refuses e (f ∷ fs) = (match_flag compile f provided ≡ refused e) ⊎ Refuses e fs

  abbrev Loops : List Flag → Type 0
  Loops fs =
      ((bs : List Bool) × Verdicts fs bs
        × ((m : Bool) → any_loop compile fs provided m ≡ answer (m || or' bs))
        × ((m : Bool) → all_loop compile fs provided m ≡ answer (m && and' bs)))
      ⊎ ((e : Fault) × Refuses e fs
          × ((m : Bool) → any_loop compile fs provided m ≡ refused e)
          × ((m : Bool) → all_loop compile fs provided m ≡ refused e))

  Answer-cases : (a : Answer) → ((b : Bool) × (a ≡ answer b)) ⊎ ((e : Fault) × (a ≡ refused e))
  Answer-cases (answer b) = inl (b, refl)
  Answer-cases (refused e) = inr (e, refl)

  loops : (fs : List Flag) → Loops fs
  unfolding any_loop all_loop
  loops [] = inl ([], tt, (λ m. ground arith), (λ m. ground arith))
  loops (f ∷ fs) = elim (Answer-cases (match_flag compile f provided)) [
    | inr (e, h) ↦ inr (e, inl h, (λ m. rw (h, any_loop)), (λ m. rw (h, all_loop)))
    | inl (b, h) ↦ elim (loops fs) [
      | inl (bs, v, any', all') ↦ inl (
        b ∷ bs,
        (h, v),
        (λ m. rw (h, any_loop) (rw (any' (m || b)) (ground arith))),
        (λ m. rw (h, all_loop) (rw (all' (m && b)) (ground arith))),
      )
      | inr (e, r, any', all') ↦ inr (
        e,
        inr r,
        (λ m. rw (h, any_loop) (any' (m || b))),
        (λ m. rw (h, all_loop) (all' (m && b))),
      )
    ]
  ]

  -- Either every flag gives a verdict, and then `MatchAny` answers with their disjunction and
  -- `MatchAll` with their conjunction, false for no flag; or some flag is an error, and then both
  -- return that error, whatever the other flags say.
  pub match_any-match_all :
      (fs : List Flag)
      → ((bs : List Bool) × Verdicts fs bs
          × (match_any compile fs provided ≡ answer (or' bs))
          × (match_all compile fs provided ≡ answer (and_some bs)))
        ⊎ ((e : Fault) × Refuses e fs
            × (match_any compile fs provided ≡ refused e)
            × (match_all compile fs provided ≡ refused e))
  unfolding match_any match_all
  match_any-match_all [] = inl ([], tt, refl, refl)
  match_any-match_all (f ∷ fs) = elim (loops (f ∷ fs)) [
    | inl ([], v, any', all') ↦ absurd v
    | inl (b ∷ bs, v, any', all') ↦ inl (b ∷ bs, v, any' false, all' true)
    | inr (e, r, any', all') ↦ inr (e, r, any' false, all' true)
  ]

  -- what the write boundary has made sure of
  abbrev pub Checked : Flag → Type 0
  Checked f = (validate compile f ≡ none) × (f.kind ≢ other)

  Checked-kind :
      (k : Kind) (f : Flag)
      → f.kind ≡ k
      → Checked f
      → (b : Bool) × (match_flag compile f provided ≡ answer b)
  unfolding match_flag match_kind validate
  Checked-kind static f e h = elim (Answer-cases (match_flag compile f provided)) [
    | inl yes' ↦ yes'
    | inr (x, r) ↦ absurd (ground (arith, e, r))
  ]
  Checked-kind regex f e h = elim (Answer-cases (match_flag compile f provided)) [
    | inl yes' ↦ yes'
    | inr (x, r) ↦ absurd (ground (arith, e, h.0, r))
  ]
  Checked-kind other f e h = absurd (h.1 e)

  verdicts : (fs : List Flag) → All Checked fs → (bs : List Bool) × Verdicts fs bs
  verdicts [] h = ([], tt)
  verdicts (f ∷ fs) h =
      let (b, e) = Checked-kind f.kind f refl h.0 in
      let (bs, v) = verdicts fs h.1 in (b ∷ bs, (e, v))

  no_refusal : (fs : List Flag) (bs : List Bool) (e : Fault) → Verdicts fs bs → ¬ Refuses e fs
  no_refusal [] bs e v r = r
  no_refusal (f ∷ fs) [] e v r = v
  no_refusal (f ∷ fs) (b ∷ bs) e v r = elim r [
    | inl h ↦ ground (arith, v.0, h)
    | inr deeper ↦ no_refusal fs bs e v.1 deeper
  ]

  -- Flags that passed `Validate` and are of one of the two types never make a submission an error:
  -- whatever is submitted, `MatchAny` and `MatchAll` answer.
  pub validated-answers :
      (fs : List Flag)
      → All Checked fs
      → (a b : Bool) × (match_any compile fs provided ≡ answer a)
        × (match_all compile fs provided ≡ answer b)
  validated-answers fs h = elim (match_any-match_all fs) [
    | inl (bs, v, any', all') ↦ (or' bs, and_some bs, any', all')
    | inr (e, r, any', all') ↦ let (bs, v) = verdicts fs h in absurd (no_refusal fs bs e v r)
  ]
