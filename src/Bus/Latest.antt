-- ===== src/Bus/Latest.antt =====
-- What a listener that does not keep up still has: the latest events.
use baby.Common.{
  ℕ, suc, ◌≡◌, ◌<◌, ◌-◌, ◌∙◌, sym, ap, refl, String, List, [], ◌∷◌, ◌++◌, append_assoc, append-nil,
  map, latest, latest_all, latest-append, length-drop, length, length-append, arith, All, inl, inr,
}
use baby.Bus.{Event, Subscriber, Bus, offer, drop_oldest, publish}
use baby.Bus.Order.{Fits, offer-cases}

module _ {A : Type 0} where
  offer-latest :
      (maxsize : ℕ) (e : Event A) (q : List (Event A))
      → 0 < maxsize
      → Fits maxsize q
      → offer maxsize e q ≡ latest maxsize (q ++ e ∷ [])
  offer-latest maxsize e q pos h = elim (offer-cases maxsize e q h) [
    | inl (same, room) ↦
        same
        ∙ sym (latest_all maxsize (q ++ e ∷ []) (omega (arith, length-append q (e ∷ []), room pos)))
    | inr (same, size, p) ↦ same ∙ dropped q size
  ]
    where
      dropped :
          (q : List (Event A))
          → maxsize ≡ length q
          → drop_oldest q ++ e ∷ [] ≡ latest maxsize (q ++ e ∷ [])
      dropped [] size = absurd (omega (arith, pos))
      dropped (x ∷ q) size =
          let one : length (x ∷ q ++ e ∷ []) - maxsize ≡ 1 =
            omega (arith, length-append q (e ∷ [])) in
          rw one

  -- the events of publications, from number `n`
  abbrev pub events : ℕ → List (String × String × A) → List (Event A)
  events n [] = []
  events n ((kind, channel, payload) ∷ xs) =
      record { kind = kind; channel = channel; payload = payload; seq = n } ∷ events (suc n) xs

  abbrev pub publish_all : List (String × String × A) → Bus A → Bus A
  publish_all [] b = b
  publish_all ((kind, channel, payload) ∷ xs) b = publish_all xs (publish kind channel payload b)

  abbrev pub listen : ℕ → List (Event A) → Subscriber A → Subscriber A
  listen maxsize es s = record s { queue = latest maxsize (s.queue ++ es) }

  abbrev pub AllFit : ℕ → List (Subscriber A) → Type 0
  AllFit maxsize ss = All (λ s. Fits maxsize s.queue) ss

  latest-Fits : (maxsize : ℕ) (q : List (Event A)) → Fits maxsize (latest maxsize q)
  latest-Fits maxsize q = λ p. omega (arith, length-drop (length q - maxsize) q)

  listen_none :
      (maxsize : ℕ) (ss : List (Subscriber A))
      → 0 < maxsize
      → AllFit maxsize ss
      → map (listen maxsize []) ss ≡ ss
  listen_none maxsize [] pos h = refl
  listen_none maxsize (s ∷ ss) pos h =
      let same : latest maxsize (s.queue ++ []) ≡ s.queue =
        ap (latest maxsize) (append-nil s.queue) ∙ latest_all maxsize s.queue (h.0 pos) in
      rw (same, listen_none maxsize ss pos h.1)

  offered : ℕ → Event A → Subscriber A → Subscriber A
  offered maxsize e s = record s { queue = offer maxsize e s.queue }

  listen-offered :
      (maxsize : ℕ) (e : Event A) (es : List (Event A)) (ss : List (Subscriber A))
      → 0 < maxsize
      → AllFit maxsize ss
      → (map (listen maxsize es) (map (offered maxsize e) ss) ≡ map (listen maxsize (e ∷ es)) ss)
        × AllFit maxsize (map (offered maxsize e) ss)
  unfolding offered
  listen-offered maxsize e es [] pos h = (refl, tt)
  listen-offered maxsize e es (s ∷ ss) pos h =
      let now = offer-latest maxsize e s.queue pos h.0 in
      let same : latest maxsize (offer maxsize e s.queue ++ es)
          ≡ latest maxsize (s.queue ++ e ∷ es) =
        ap (λ q. latest maxsize (q ++ es)) now
        ∙ latest-append maxsize (s.queue ++ e ∷ []) es
        ∙ ap (latest maxsize) (append_assoc s.queue (e ∷ []) es) in
      let (rest, fits) = listen-offered maxsize e es ss pos h.1 in
      (rw (same, rest), (rw now (latest-Fits maxsize (s.queue ++ e ∷ [])), fits))

  -- Whatever was queued, the subscribers of a bounded bus that take nothing while events are
  -- published are left with the latest of all, as many as the queue can hold.
  pub publish_all-latest :
      (xs : List (String × String × A)) (b : Bus A)
      → 0 < b.maxsize
      → AllFit b.maxsize b.subscribers
      → (publish_all xs b).subscribers ≡ map (listen b.maxsize (events b.seq xs)) b.subscribers
  unfolding publish offered
  publish_all-latest [] b pos h = sym (listen_none b.maxsize b.subscribers pos h)
  publish_all-latest ((kind, channel, payload) ∷ xs) b pos h =
      let e : Event A = record { kind = kind; channel = channel; payload = payload; seq = b.seq } in
      let (heard, fits) = listen-offered b.maxsize e (events (suc b.seq) xs) b.subscribers pos h in
      publish_all-latest xs (publish kind channel payload b) pos fits ∙ heard
