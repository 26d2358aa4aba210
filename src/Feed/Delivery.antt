-- ===== src/Feed/Delivery.antt =====
-- Delivery: a subscriber that is not dropped gets every message sent since, once and in order.
pub mod Kept
use flagfish.Prelude.{
  ℕ, ◌<◌, ◌≡◌, refl, sym, ap, ◌∙◌, Bool, true, ◌&&◌, Option, none, some, List, [], ◌∷◌, ◌++◌, arith,
  ◌==◌, if◌then◌else◌, ◌>>=◌, Bool-cases, Option-cases, inl, inr, some-injective, ◌⊎◌,
}
use mathlib.Core.Path.{subst}
use mathlib.Core.List.{append-nil, append_assoc}
use flagfish.Rows.{first}
use flagfish.Feed.{
  Channel, Bus, drop, offer, each, broadcast, close_all, subscribe, remove_from, remove, take_one,
  receive_from, receive, Event, subscribes, removes, sends, receives, closes, step, run,
}

List-cases {ℓ} :
    {A : Type ℓ} (xs : List A) → (xs ≡ []) ⊎ ((x : A) × ((rest : List A) × (xs ≡ x ∷ rest)))
List-cases [] = inl refl
List-cases (x ∷ xs) = inr (x, (xs, refl))

module _ {ℓ} {A : Type ℓ} (cap : ℕ) where
  -- all that was ever sent to a channel
  abbrev pub stream : Channel A → List A
  stream c = c.taken ++ c.buffer

  abbrev pub channel_with : ℕ → Channel A → Bool
  channel_with id c = c.id == id

  -- the messages among the events
  unfoldable pub sent : List (Event A) → List A
  sent [] = []
  sent (subscribes ∷ es) = sent es
  sent (removes id ∷ es) = sent es
  sent (sends n ∷ es) = n ∷ sent es
  sent (receives id ∷ es) = sent es
  sent (closes ∷ es) = sent es

  -- one channel before and after: while it is registered it has got the messages
  abbrev pub Got : List A → Channel A → Channel A → Type ℓ
  Got ns c d =
      (d.id ≡ c.id) × (d.registered ≡ true → (c.registered ≡ true) × (stream d ≡ stream c ++ ns))

  abbrev GotOne : List A → Channel A → Option (Channel A) → Type ℓ
  GotOne ns c none = Unit
  GotOne ns c (some d) = Got ns c d

  offer-Got : (n : A) (c : Channel A) → GotOne (n ∷ []) c (offer cap n c)
  unfolding offer drop
  offer-Got n c = ground (arith, append_assoc c.taken c.buffer (n ∷ []))

  drop-Got : (c : Channel A) → GotOne [] c (drop c)
  unfolding drop
  drop-Got c = ground arith

  take_one-stream : (c : Channel A) → stream (take_one c) ≡ stream c ++ []
  unfolding take_one
  take_one-stream c = elim (List-cases c.buffer) [
    | inl empty ↦
        rw (take_one, empty) (ap (λ xs. c.taken ++ xs) empty ∙ sym (append-nil (c.taken ++ [])))
    | inr (n, (rest, full)) ↦
        rw (take_one, full)
          (append_assoc c.taken (n ∷ []) rest ∙ sym (append-nil (c.taken ++ n ∷ rest)))
  ]

  take_one-Got : (c : Channel A) → Got [] c (take_one c)
  unfolding take_one
  take_one-Got c = ground (arith, take_one-stream c)

  Got-self : (c : Channel A) → Got [] c c
  Got-self c = (refl, (λ here. (here, sym (append-nil (stream c)))))

  -- a channel with the id, in a list that a pass over the channels leaves
  abbrev pub Found : List A → ℕ → Channel A → Option (List (Channel A)) → Type ℓ
  Found ns id c none = Unit
  Found ns id c (some ds) = (d : Channel A) × ((first (channel_with id) ds ≡ some d) × Got ns c d)

  abbrev pass : (Channel A → Option (Channel A)) → List (Channel A) → Option (List (Channel A))
  pass f [] = some []
  pass f (c ∷ cs) = f c >>= λ d. pass f cs >>= λ ds. some (d ∷ ds)

  pass-Found :
      (f : Channel A → Option (Channel A)) (ns : List A) (id : ℕ) (cs : List (Channel A))
      (c : Channel A)
      → ((x : Channel A) → GotOne ns x (f x))
      → first (channel_with id) cs ≡ some c
      → Found ns id c (pass f cs)
  unfolding first
  pass-Found f ns id [] c got found = absurd (ground (arith, found))
  pass-Found f ns id (x ∷ xs) c got found = elim (Option-cases (f x)) [
    | inl panic ↦ rw panic tt
    | inr (d, image) ↦ elim (Option-cases (pass f xs)) [
      | inl panic ↦ rw (image, panic) tt
      | inr (ds, rest) ↦
          rw (image, rest)
            (elim (Bool-cases (channel_with id x)) [
              | inl own ↦
                  let same : x ≡ c = some-injective (ground (arith, found, own)) in
                  let kept : Got ns x d = subst (GotOne ns x) image (got x) in
                  (d, (ground (arith, kept.0, own), subst (λ y. Got ns y d) same kept))
              | inr other ↦
                  let kept : Got ns x d = subst (GotOne ns x) image (got x) in
                  let (e, there) =
                    subst (Found ns id c) rest
                      (pass-Found f ns id xs c got (ground (arith, found, other))) in
                  (e, (ground (arith, kept.0, other, there.0), there.1))
            ])
    ]
  ]

  abbrev on_registered : (Channel A → Option (Channel A)) → Channel A → Option (Channel A)
  on_registered f c = if c.registered then f c else some c

  each-pass :
      (f : Channel A → Option (Channel A)) (cs : List (Channel A))
      → each f cs ≡ pass (on_registered f) cs
  unfolding each
  each-pass f [] = refl
  each-pass f (c ∷ cs) = rw (each-pass f cs) refl

  abbrev on_id : ℕ → Channel A → Option (Channel A)
  on_id id c = if c.id == id && c.registered then drop c else some c

  remove_from-pass : (id : ℕ) (cs : List (Channel A)) → remove_from id cs ≡ pass (on_id id) cs
  unfolding remove_from
  remove_from-pass id [] = refl
  remove_from-pass id (c ∷ cs) = rw (remove_from-pass id cs) refl

  abbrev on_reader : ℕ → Channel A → Option (Channel A)
  on_reader id c = some (if c.id == id then take_one c else c)

  receive_from-pass :
      (id : ℕ) (cs : List (Channel A)) → pass (on_reader id) cs ≡ some (receive_from id cs)
  unfolding receive_from
  receive_from-pass id [] = refl
  receive_from-pass id (c ∷ cs) = rw (receive_from-pass id cs) refl

  -- the messages of one event
  abbrev news : Event A → List A
  news e = sent (e ∷ [])

  abbrev pub FoundBus : List A → ℕ → Channel A → Option (Bus A) → Type ℓ
  FoundBus ns id c none = Unit
  FoundBus ns id c (some b) = Found ns id c (some b.channels) × (id < b.next)

  sends-Got : (n : A) (c : Channel A) → GotOne (n ∷ []) c (on_registered (offer cap n) c)
  sends-Got n c = ground (arith, offer-Got n c)

  closes-Got : (c : Channel A) → GotOne [] c (on_registered drop c)
  closes-Got c = ground (arith, drop-Got c, Got-self c)

  removes-Got : (id : ℕ) (c : Channel A) → GotOne [] c (on_id id c)
  removes-Got id c = ground (arith, drop-Got c, Got-self c)

  receives-Got : (id : ℕ) (c : Channel A) → GotOne [] c (on_reader id c)
  receives-Got id c = ground (arith, take_one-Got c, Got-self c)

  -- a bus whose channels are those that a pass leaves
  abbrev carry : (List (Channel A) → Bus A) → Option (List (Channel A)) → Option (Bus A)
  carry f x = x >>= λ cs. some (f cs)

  carry-Found :
      (ns : List A) (id : ℕ) (c : Channel A) (f : List (Channel A) → Bus A)
      (x : Option (List (Channel A)))
      → ((cs : List (Channel A)) → (f cs).channels ≡ cs)
      → ((cs : List (Channel A)) → id < (f cs).next)
      → Found ns id c x
      → FoundBus ns id c (carry f x)
  carry-Found ns id c f none same old found = tt
  carry-Found ns id c f (some cs) same old found = (rw (same cs) found, old cs)

  step-Found :
      (e : Event A) (b : Bus A) (id : ℕ) (c : Channel A)
      → id < b.next
      → first (channel_with id) b.channels ≡ some c
      → FoundBus (news e) id c (step cap e b)
  unfolding step sent broadcast close_all subscribe remove receive first
  step-Found subscribes b id c old found =
      ((c, (ground (arith, old, found), Got-self c)), ground (arith, old))
  step-Found (removes k) b id c old found =
      carry-Found [] id c (λ cs. record b { channels = cs }) (remove_from k b.channels) (λ cs. refl)
        (λ cs. old)
        (rw (remove_from-pass k b.channels)
          (pass-Found (on_id k) [] id b.channels c (removes-Got k) found))
  step-Found (sends n) b id c old found =
      carry-Found (n ∷ []) id c (λ cs. record b { channels = cs }) (each (offer cap n) b.channels)
        (λ cs. refl) (λ cs. old)
        (rw (each-pass (offer cap n) b.channels)
          (pass-Found (on_registered (offer cap n)) (n ∷ []) id b.channels c (sends-Got n) found))
  step-Found (receives k) b id c old found = (
    subst (Found [] id c) (receive_from-pass k b.channels)
        (pass-Found (on_reader k) [] id b.channels c (receives-Got k) found),
    old,
  )
  step-Found closes b id c old found =
      carry-Found [] id c (λ cs. record b { channels = cs; stopped = true }) (each drop b.channels)
        (λ cs. refl) (λ cs. old)
        (rw (each-pass drop b.channels)
          (pass-Found (on_registered drop) [] id b.channels c closes-Got found))

  sent-cons : (e : Event A) (es : List (Event A)) → sent (e ∷ es) ≡ news e ++ sent es
  unfolding sent
  sent-cons subscribes es = refl
  sent-cons (removes k) es = refl
  sent-cons (sends n) es = refl
  sent-cons (receives k) es = refl
  sent-cons closes es = refl

  Got-trans : (ns ms : List A) (c d e : Channel A) → Got ns c d → Got ms d e → Got (ns ++ ms) c e
  Got-trans ns ms c d e g h = (
    h.0 ∙ g.0,
    λ here.
        let (there, later) = h.1 here in
        let (here_c, first_part) = g.1 there in
        (here_c, later ∙ (ap (λ xs. xs ++ ms) first_part ∙ append_assoc (stream c) ns ms)),
  )

  FoundBus-trans :
      (ns ms : List A) (id : ℕ) (c d : Channel A) (x : Option (Bus A))
      → Got ns c d
      → FoundBus ms id d x
      → FoundBus (ns ++ ms) id c x
  FoundBus-trans ns ms id c d none g h = tt
  FoundBus-trans ns ms id c d (some b) g h =
      ((h.0.0, (h.0.1.0, Got-trans ns ms c d h.0.0 g h.0.1.1)), h.1)

  pub run-Found :
      (es : List (Event A)) (b : Bus A) (id : ℕ) (c : Channel A)
      → id < b.next
      → first (channel_with id) b.channels ≡ some c
      → FoundBus (sent es) id c (run cap es b)
  unfolding run sent
  run-Found [] b id c old found = ((c, (found, Got-self c)), old)
  run-Found (e ∷ es) b id c old found = elim (Option-cases (step cap e b)) [
    | inl panic ↦ rw (run, panic) tt
    | inr (m, stepped) ↦
        let (found_m, old_m) =
          subst (FoundBus (news e) id c) stepped (step-Found e b id c old found) in
        rw (run, stepped, sent-cons e es)
          (FoundBus-trans (news e) (sent es) id c found_m.0 (run cap es m) found_m.1.1
            (run-Found es m id found_m.0 old_m found_m.1.0))
  ]

  -- A subscriber that is still registered after any events has been sent, since any earlier moment,
  -- exactly the messages broadcast since then, once each and in their order: what it has taken and
  -- what waits in its buffer are its stream before, followed by those messages.
  pub run_delivers :
      (es : List (Event A)) (b after : Bus A) (id : ℕ) (c d : Channel A)
      → id < b.next
      → first (channel_with id) b.channels ≡ some c
      → run cap es b ≡ some after
      → first (channel_with id) after.channels ≡ some d
      → d.registered ≡ true
      → stream d ≡ stream c ++ sent es
  run_delivers es b after id c d old found ran found_d here =
      let (e, (found_e, got)) =
        (subst (FoundBus (sent es) id c) ran (run-Found es b id c old found)).0 in
      let same : e ≡ d = some-injective (sym found_e ∙ found_d) in
      ((subst (Got (sent es) c) same got).1 here).1
