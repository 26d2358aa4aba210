-- ===== src/Feed/Delivery/Kept.antt =====
-- A subscriber stays in the map as long as it reads at least once before each broadcast and neither
-- it nor the shutdown takes it out.
use flagfish.Prelude.{
  ℕ, suc, ◌≤◌, ◌<◌, ◌≡◌, refl, sym, ap, ◌∙◌, Bool, true, false, not, Option, none, some, List, [],
  ◌∷◌, arith, length, length-append, ◌==◌, ◌>>=◌, Bool-cases, Option-cases, inl, inr,
  some-injective,
}
use mathlib.Core.Path.{subst}
use flagfish.Rows.{first}
use flagfish.Feed.{
  Channel, Bus, drop, offer, each, broadcast, close_all, subscribe, remove_from, remove, take_one,
  receive_from, receive, Event, subscribes, removes, sends, receives, closes, step,
}
use flagfish.Feed.Delivery.{
  channel_with, pass, on_registered, on_id, on_reader, each-pass, remove_from-pass,
  receive_from-pass,
}

module _ {ℓ} {A : Type ℓ} (cap : ℕ) where
  -- what an event does to one channel
  abbrev acts : Event A → Channel A → Option (Channel A)
  acts subscribes c = some c
  acts (removes k) c = on_id cap k c
  acts (sends n) c = on_registered cap (offer cap n) c
  acts (receives k) c = on_reader cap k c
  acts closes c = on_registered cap drop c

  acts-id : (e : Event A) (c d : Channel A) → acts e c ≡ some d → d.id ≡ c.id
  unfolding drop offer take_one
  acts-id subscribes c d h = ap (λ x. x.id) (sym (some-injective h))
  acts-id (removes k) c d h = ground (arith, h)
  acts-id (sends n) c d h = ground (arith, h)
  acts-id (receives k) c d h = ground (arith, h)
  acts-id closes c d h = ground (arith, h)

  image :
      (f : Channel A → Option (Channel A)) (id : ℕ) (cs ds : List (Channel A)) (c : Channel A)
      → ((x y : Channel A) → f x ≡ some y → y.id ≡ x.id)
      → first (channel_with cap id) cs ≡ some c
      → pass cap f cs ≡ some ds
      → (d : Channel A) × ((f c ≡ some d) × (first (channel_with cap id) ds ≡ some d))
  unfolding first
  image f id [] ds c same found ran = absurd (ground (arith, found))
  image f id (x ∷ xs) ds c same found ran = elim (Option-cases (f x)) [
    | inl panic ↦ absurd (ground (arith, ran, panic))
    | inr (y, at_x) ↦ elim (Option-cases (pass cap f xs)) [
      | inl panic ↦ absurd (ground (arith, ran, at_x, panic))
      | inr (ys, rest) ↦
          let out : ◌≡◌ {A = List (Channel A)} (y ∷ ys) ds =
            some-injective (sym (rw (at_x, rest) refl) ∙ ran) in
          elim (Bool-cases (channel_with cap id x)) [
            | inl own ↦
                let here : x ≡ c = some-injective (ground (arith, found, own)) in
                (
                  y,
                  (
                    subst (λ z. f z ≡ some y) here at_x,
                    subst (λ zs. first (channel_with cap id) zs ≡ some y) out
                        (ground (arith, same x y at_x, own)),
                  ),
                )
            | inr other ↦
                let (d, (at_c, there)) =
                  image f id xs ys c same (ground (arith, found, other)) rest in
                (
                  d,
                  (
                    at_c,
                    subst (λ zs. first (channel_with cap id) zs ≡ some d) out
                        (ground (arith, same x y at_x, other, there)),
                  ),
                )
          ]
    ]
  ]

  carried :
      (f : List (Channel A) → Bus A) (x : Option (List (Channel A))) (b : Bus A)
      → (x >>= λ cs. some (f cs)) ≡ some b
      → (cs : List (Channel A)) × ((x ≡ some cs) × (f cs ≡ b))
  carried f none b h = absurd (ground (arith, h))
  carried f (some cs) b h = (cs, (refl, some-injective h))

  step-image :
      (e : Event A) (b after : Bus A) (id : ℕ) (c : Channel A)
      → id < b.next
      → first (channel_with cap id) b.channels ≡ some c
      → step cap e b ≡ some after
      → (d : Channel A) × ((acts e c ≡ some d)
          × ((first (channel_with cap id) after.channels ≡ some d) × (id < after.next)))
  unfolding step broadcast close_all subscribe remove receive first
  step-image subscribes b after id c old found ran =
      let out : subscribe b ≡ after = some-injective ran in
      subst
        (λ x.
          (d : Channel A) × ((some c ≡ some d)
            × ((first (channel_with cap id) x.channels ≡ some d) × (id < x.next))))
        out (c, (refl, (ground (arith, old, found), omega (arith, old))))
  step-image (removes k) b after id c old found ran =
      let (cs, (passed, out)) =
        carried (λ cs. record b { channels = cs }) (remove_from k b.channels) after ran in
      let (d, (at_c, there)) =
        image (on_id cap k) id b.channels cs c (acts-id (removes k)) found
          (sym (remove_from-pass cap k b.channels) ∙ passed) in
      (
        d,
        (
          at_c,
          subst (λ x. (first (channel_with cap id) x.channels ≡ some d) × (id < x.next)) out
              (there, old),
        ),
      )
  step-image (sends n) b after id c old found ran =
      let (cs, (passed, out)) =
        carried (λ cs. record b { channels = cs }) (each (offer cap n) b.channels) after ran in
      let (d, (at_c, there)) =
        image (on_registered cap (offer cap n)) id b.channels cs c (acts-id (sends n)) found
          (sym (each-pass cap (offer cap n) b.channels) ∙ passed) in
      (
        d,
        (
          at_c,
          subst (λ x. (first (channel_with cap id) x.channels ≡ some d) × (id < x.next)) out
              (there, old),
        ),
      )
  step-image (receives k) b after id c old found ran =
      let (d, (at_c, there)) =
        image (on_reader cap k) id b.channels (receive_from k b.channels) c (acts-id (receives k))
          found (receive_from-pass cap k b.channels) in
      (
        d,
        (
          at_c,
          subst (λ x. (first (channel_with cap id) x.channels ≡ some d) × (id < x.next))
              (some-injective ran) (there, old),
        ),
      )
  step-image closes b after id c old found ran =
      let (cs, (passed, out)) =
        carried (λ cs. record b { channels = cs; stopped = true }) (each drop b.channels) after
          ran in
      let (d, (at_c, there)) =
        image (on_registered cap drop) id b.channels cs c (acts-id closes) found
          (sym (each-pass cap drop b.channels) ∙ passed) in
      (
        d,
        (
          at_c,
          subst (λ x. (first (channel_with cap id) x.channels ≡ some d) × (id < x.next)) out
              (there, old),
        ),
      )

  -- the subscriber is in the map and has at most so many unread messages
  pub record At (id k : ℕ) (b : Bus A) : Type ℓ where
    pub channel : Channel A
    pub found : first (channel_with cap id) b.channels ≡ some channel
    pub old : id < b.next
    pub own : channel.id ≡ id
    pub here : channel.registered ≡ true
    pub unclosed : channel.closed ≡ false
    pub unread : length channel.buffer ≤ k

  -- an event that neither sends nor takes the subscriber out
  abbrev pub harmless : ℕ → Event A → Bool
  harmless id (removes k) = not (k == id)
  harmless id (sends n) = false
  harmless id closes = false
  harmless id subscribes = true
  harmless id (receives k) = true

  abbrev Room : ℕ → ℕ → Channel A → Type 0
  Room id k d = (d.id ≡ id) × ((d.registered ≡ true) × ((d.closed ≡ false) × (length d.buffer ≤ k)))

  moved :
      (e : Event A) (id j k : ℕ) (b after : Bus A)
      → ((c d : Channel A) → Room id j c → acts e c ≡ some d → Room id k d)
      → step cap e b ≡ some after
      → At id j b
      → At id k after
  moved e id j k b after f ran a =
      let (d, (image_d, (there, old))) = step-image e b after id a.channel a.old a.found ran in
      let r = f a.channel d (a.own, (a.here, (a.unclosed, a.unread))) image_d in
      record {
        channel = d;
        found = there;
        old = old;
        own = r.0;
        here = r.1.0;
        unclosed = r.1.1.0;
        unread = r.1.1.1;
      }

  harmless-Room :
      (e : Event A) (id k : ℕ) (c d : Channel A)
      → harmless id e ≡ true
      → Room id k c
      → acts e c ≡ some d
      → Room id k d
  unfolding take_one drop
  harmless-Room subscribes id k c d h r at_c = subst (Room id k) (some-injective at_c) r
  harmless-Room (removes j) id k c d h r at_c =
      let same : c ≡ d = some-injective (ground (arith, h, r, at_c)) in subst (Room id k) same r
  harmless-Room (sends n) id k c d h r at_c = absurd (ground (arith, h))
  harmless-Room (receives j) id k c d h r at_c = ground (arith, r, at_c)
  harmless-Room closes id k c d h r at_c = absurd (ground (arith, h))

  read-Room :
      (id k : ℕ) (c d : Channel A) → Room id (suc k) c → acts (receives id) c ≡ some d → Room id k d
  unfolding take_one
  read-Room id k c d r at_c = ground (arith, r, at_c)

  send-Room :
      (n : A) (id k : ℕ) (c d : Channel A)
      → k < cap
      → Room id k c
      → acts (sends n) c ≡ some d
      → Room id (suc k) d
  unfolding offer
  send-Room n id k c d h r at_c = ground (arith, h, r, at_c, length-append c.buffer (n ∷ []))

  pub harmless-At :
      (e : Event A) (id k : ℕ) (b after : Bus A)
      → harmless id e ≡ true
      → step cap e b ≡ some after
      → At id k b
      → At id k after
  harmless-At e id k b after h = moved e id k k b after (λ c d. harmless-Room e id k c d h)

  pub read-At :
      (id k : ℕ) (b after : Bus A)
      → step cap (receives id) b ≡ some after
      → At id (suc k) b
      → At id k after
  read-At id k b after = moved (receives id) id (suc k) k b after (read-Room id k)

  pub send-At :
      (n : A) (id k : ℕ) (b after : Bus A)
      → k < cap
      → step cap (sends n) b ≡ some after
      → At id k b
      → At id (suc k) after
  send-At n id k b after h = moved (sends n) id k (suc k) b after (λ c d. send-Room n id k c d h)
