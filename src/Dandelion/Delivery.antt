-- ===== src/Dandelion/Delivery.antt =====
-- `handle_outbound` and `handle_inbound_stem` of src/tsarchain/network/dandelion_pp.py, and which
-- transactions are diffused or wait for a timer.
use graffiti_protocol.Base.{
  ℕ, ◌≡◌, ◌⊎◌, inl, inr, arith, Bool, not, true, false, List, Option, none, some, member,
  member-add, member-discard, nat_key, ◌||◌, Bool-cases, if◌then◌else◌, eqb_iff, leb, length, ◌∷◌,
  ◌∙◌, refl,
}
use graffiti_protocol.Dandelion.{
  Relay, mark_stem, pick_peer, fluff, schedule_fluff, handle_outbound, forward_stem,
  handle_inbound_stem, first_hop, outbound_to,
}

-- Diffused already, or under a timer that will diffuse it.
abbrev pub covered : Relay → ℕ → Bool
covered s tx = member tx s.fluffed || member tx s.timers

abbrev pub AreCovered : Relay → Type 0
AreCovered s = (t : ℕ) → member t s.stem_seen ≡ true → covered s t ≡ true

-- `s'` has seen the same stems as `s`, covers what `s` covers, and covers `tx` besides.
record Covers (s s' : Relay) (tx : ℕ) : Type 0 where
  same_seen : s'.stem_seen ≡ s.stem_seen
  keeps : (t : ℕ) → covered s t ≡ true → covered s' t ≡ true
  itself : covered s' tx ≡ true

fluff-Covers : (s : Relay) (tx : ℕ) → Covers s (fluff s tx) tx
unfolding fluff
fluff-Covers s tx = record {
  same_seen = ground arith;
  keeps =
      λ t h. ground (arith, eqb_iff tx t, member-add tx t s.fluffed, member-discard tx t s.timers);
  itself = ground (arith, member-add tx tx s.fluffed, eqb_iff tx tx);
}

schedule_fluff-Covers : (s : Relay) (tx : ℕ) → Covers s (schedule_fluff s tx) tx
unfolding schedule_fluff
schedule_fluff-Covers s tx = record {
  same_seen = ground arith;
  keeps = λ t h. ground (arith, member-add tx t s.timers);
  itself = ground (arith, member-add tx tx s.timers, eqb_iff tx tx);
}

mark_stem-seen :
    (s : Relay) (tx t : ℕ)
    → member t (mark_stem s tx).0.stem_seen ≡ true
    → (mark_stem s tx).1 ≡ true
    → (member t s.stem_seen ≡ true) ⊎ (t ≡ tx)
unfolding mark_stem
mark_stem-seen s tx t h fresh = ground (arith, member-add tx t s.stem_seen, eqb_iff tx t)

mark_stem-parts :
    (s : Relay) (tx : ℕ)
    → ((mark_stem s tx).0.fluffed ≡ s.fluffed)
      × ((mark_stem s tx).0.timers ≡ s.timers)
      × ((mark_stem s tx).1 ≡ false → (mark_stem s tx).0 ≡ s)
unfolding mark_stem
mark_stem-parts s tx = ground arith

-- What takes a freshly marked stem to a covered one restores the invariant.
marked-AreCovered :
    (s s' : Relay) (tx : ℕ)
    → AreCovered s
    → (mark_stem s tx).1 ≡ true
    → Covers (mark_stem s tx).0 s' tx
    → AreCovered s'
marked-AreCovered s s' tx h fresh c t seen =
    elim (mark_stem-seen s tx t (rw c.same_seen at seen) fresh) [
      | inl old ↦ c.keeps t (rw ((mark_stem-parts s tx).0, (mark_stem-parts s tx).1) (h t old))
      | inr same ↦ rw same c.itself
    ]

-- The invariant after a call, and that the call's own transaction is covered if it was taken over.
abbrev pub IsKept : ℕ → Relay × Bool → Type 0
IsKept tx (s', taken) = AreCovered s' × (not taken || covered s' tx ≡ true)

module _ (answers : ℕ → Bool) where
  first_hop-Covers : (s : Relay) (peer tx : ℕ) → Covers s (first_hop answers s peer tx) tx
  unfolding first_hop
  first_hop-Covers s peer tx =
      let sent : Relay = record s { stems = (peer, tx) ∷ s.stems } in
      let f = fluff-Covers sent tx in
      let g = schedule_fluff-Covers sent tx in
      record {
        same_seen = ground (arith, f.same_seen, g.same_seen);
        keeps = λ t h. ground (arith, f.keeps t, g.keeps t);
        itself = ground (arith, f.itself, g.itself);
      }

  forward_stem-keeps :
      (s : Relay) (tx : ℕ) (o : Option ℕ)
      → ((forward_stem answers s tx o).stem_seen ≡ s.stem_seen)
        × ((t : ℕ) → covered s t ≡ true → covered (forward_stem answers s tx o) t ≡ true)
  unfolding forward_stem
  forward_stem-keeps s tx none = ((fluff-Covers s tx).same_seen, (fluff-Covers s tx).keeps)
  forward_stem-keeps s tx (some peer) =
      let sent : Relay = record s { stems = (peer, tx) ∷ s.stems } in
      let f = fluff-Covers sent tx in
      (ground (arith, f.same_seen), λ t h. ground (arith, f.keeps t))

  inbound-Covers :
      (s : Relay) (tx : ℕ) (o : Option ℕ)
      → Covers s (schedule_fluff (forward_stem answers s tx o) tx) tx
  inbound-Covers s tx o =
      let (seen, keeps) = forward_stem-keeps s tx o in
      let g = schedule_fluff-Covers (forward_stem answers s tx o) tx in
      record {
        same_seen = g.same_seen ∙ seen;
        keeps = λ t h. g.keeps t (keeps t h);
        itself = g.itself;
      }

  fresh-IsKept :
      (s s' : Relay) (tx : ℕ) (seen_already : Bool)
      → AreCovered s
      → Covers (mark_stem s tx).0 s' tx
      → (fresh : Bool) → (mark_stem s tx).1 ≡ fresh
      → ((mark_stem s tx).1 ≡ false → not seen_already || covered s tx ≡ true)
      → IsKept tx (if fresh then (s', true) else ((mark_stem s tx).0, seen_already))
  fresh-IsKept s s' tx seen_already h c true e k = (marked-AreCovered s s' tx h e c, c.itself)
  fresh-IsKept s s' tx seen_already h c false e k =
      let same = (mark_stem-parts s tx).2 e in rw same (h, k e)

  outbound_to-IsKept :
      (s : Relay) (tx : ℕ) (o : Option ℕ) → AreCovered s → IsKept tx (outbound_to answers s tx o)
  unfolding outbound_to
  outbound_to-IsKept s tx none h = (h, refl)
  outbound_to-IsKept s tx (some peer) h =
      fresh-IsKept s (first_hop answers (mark_stem s tx).0 peer tx) tx false h
        (first_hop-Covers (mark_stem s tx).0 peer tx) (mark_stem s tx).1 refl (λ _. refl)

refused-covered :
    (s : Relay) (tx : ℕ) → AreCovered s → (mark_stem s tx).1 ≡ false → covered s tx ≡ true
unfolding mark_stem
refused-covered s tx h e = ground (arith, h tx)

module _ (choice : List ℕ → ℕ) (answers : ℕ → Bool) where
  -- The relay keeps the promise that every stem that it has seen is diffused or under a timer, and a
  -- transaction that `handle_outbound` or `handle_inbound_stem` takes over is one of these.
  pub handlers-AreCovered :
      (s : Relay) (tx : ℕ) (peers : List ℕ) (other : Option ℕ)
      → AreCovered s
      → IsKept tx (handle_outbound choice answers s tx peers other)
        × IsKept tx (handle_inbound_stem choice answers s tx peers other)
  unfolding handle_outbound handle_inbound_stem
  handlers-AreCovered s tx peers other h = elim (Bool-cases (leb 5 (length peers))) [
    | inl on ↦ rw on (
      outbound_to-IsKept answers s tx (pick_peer choice peers other) h,
      fresh-IsKept answers s
          (schedule_fluff
            (forward_stem answers (mark_stem s tx).0 tx (pick_peer choice peers other)) tx)
          tx true h (inbound-Covers answers (mark_stem s tx).0 tx (pick_peer choice peers other))
          (mark_stem s tx).1 refl (λ e. refused-covered s tx h e),
    )
    | inr off ↦ rw off ((h, refl), (h, refl))
  ]
