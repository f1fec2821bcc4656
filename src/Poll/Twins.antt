-- ===== src/Poll/Twins.antt =====
-- The second sockets that `__ape_shim_host_ppoll` of shim/poll.c polls beside the first ones.
use rust_ape.Prelude.{
  ℕ, ◌≤◌, ◌≡◌, refl, true, false, not, ◌||◌, List, [], ◌∷◌, ◌++◌, map, Option, none, some, ltb,
  ◌==◌, length, take, drop, arith, ap, ap₂, ◌∙◌, sym, bit_or, Bool-cases, Option-cases, inl, inr,
}
use rust_ape.Epoll.Arming.{PollFd}
use rust_ape.Epoll.Chunked.{Answer, polled}
use rust_ape.Packet.{PktTable, packet_any, packet_secondary}
use rust_ape.Poll.{secondaries, twins, fold_twins, ready_count, has_twin, folded, host_ppoll}

take-map :
    (f : PollFd → PollFd) (ps qs : List PollFd) → take (length ps) (map f (ps ++ qs)) ≡ map f ps
take-map f [] qs = refl
take-map f (p ∷ ps) qs = ap (λ (x : List PollFd). f p ∷ x) (take-map f ps qs)

drop-map :
    (f : PollFd → PollFd) (ps qs : List PollFd) → drop (length ps) (map f (ps ++ qs)) ≡ map f qs
drop-map f [] qs = refl
drop-map f (p ∷ ps) qs = drop-map f ps qs

packet_secondary-none :
    (t : PktTable) (fd : ℕ) → (t.count == 0) ≡ true → packet_secondary fd t ≡ none
unfolding packet_secondary
packet_secondary-none t fd h = rw h refl

-- A host that answers each slot by its descriptor and its events.
module _ (ready : ℕ → ℕ → ℕ) where
  abbrev pub fill : PollFd → PollFd
  fill p = record p { revents = ready p.fd p.events }

  abbrev pub fill_all : List PollFd → Option Answer
  fill_all ps = some (polled (ready_count (map fill ps)) (map fill ps))

  -- A slot that stands for its own descriptor, and for a second one where there is one.
  abbrev pub joined : Option ℕ → PollFd → PollFd
  joined none p = fill p
  joined (some fd6) p = record p { revents = bit_or (ready p.fd p.events) (ready fd6 p.events) }

  abbrev pub joined_all : PktTable → List PollFd → List PollFd
  joined_all t ps = map (λ (p : PollFd). joined (packet_secondary p.fd t) p) ps

  fold_one :
      (s : Option ℕ) (ss : List (Option ℕ)) (p : PollFd) (ps : List PollFd)
      → fold_twins (s ∷ ss) (p ∷ ps) (map fill (p ∷ ps)) (map fill (twins (s ∷ ss) (p ∷ ps)))
        ≡ joined s p ∷ fold_twins ss ps (map fill ps) (map fill (twins ss ps))
  unfolding fold_twins twins
  fold_one none ss p ps = refl
  fold_one (some fd6) ss p ps = refl

  fold_twins-joined :
      (t : PktTable) (ps : List PollFd)
      → let ss = secondaries t ps in
        fold_twins ss ps (map fill ps) (map fill (twins ss ps)) ≡ joined_all t ps
  unfolding secondaries
  fold_twins-joined t [] = unfold fold_twins in refl
  fold_twins-joined t (p ∷ ps) =
      fold_one (packet_secondary p.fd t) (secondaries t ps) p ps
      ∙ ap (λ (x : List PollFd). joined (packet_secondary p.fd t) p ∷ x) (fold_twins-joined t ps)

  has_twin-none :
      (t : PktTable) (ps : List PollFd)
      → has_twin (secondaries t ps) ≡ false
      → joined_all t ps ≡ map fill ps
  unfolding secondaries
  has_twin-none t [] h = refl
  has_twin-none t (p ∷ ps) h = elim (Option-cases (packet_secondary p.fd t)) [
    | inl q ↦
        ap₂ (λ (x : PollFd) (xs : List PollFd). x ∷ xs) (ap (λ s. joined s p) q)
          (has_twin-none t ps (ap (λ s. has_twin (s ∷ secondaries t ps)) (sym q) ∙ h))
    | inr (fd6, q) ↦ absurd (ground (arith, ap (λ s. has_twin (s ∷ secondaries t ps)) (sym q) ∙ h))
  ]

  no_packets :
      (t : PktTable) (ps : List PollFd)
      → (t.count == 0) ≡ true
      → has_twin (secondaries t ps) ≡ false
  unfolding secondaries
  no_packets t [] h = refl
  no_packets t (p ∷ ps) h =
      ap (λ s. has_twin (s ∷ secondaries t ps)) (packet_secondary-none t p.fd h) ∙ no_packets t ps h

module _ (t : PktTable) (inner : List PollFd → Option Answer) (ps : List PollFd) where
  host_ppoll-plain : has_twin (secondaries t ps) ≡ false → host_ppoll t inner ps ≡ inner ps
  unfolding host_ppoll
  host_ppoll-plain n =
      elim (Bool-cases (not (packet_any t) || (length ps == 0 || ltb 64 (length ps)))) [
        | inl c ↦ rw c refl
        | inr c ↦ rw (c, n) refl
      ]

  host_ppoll-longer :
      (not (packet_any t) || (length ps == 0 || ltb 64 (length ps))) ≡ false
      → has_twin (secondaries t ps) ≡ true
      → host_ppoll t inner ps
        ≡ folded (secondaries t ps) ps (inner (ps ++ twins (secondaries t ps) ps))
  unfolding host_ppoll
  host_ppoll-longer c y = rw (c, y) refl

-- The longer array is made only where there is something to add.
longer-needed :
    (t : PktTable) (ps : List PollFd)
    → length ps ≤ 64
    → has_twin (secondaries t ps) ≡ true
    → (not (packet_any t) || (length ps == 0 || ltb 64 (length ps))) ≡ false
unfolding secondaries
longer-needed t [] few y = absurd (ground (arith, y))
longer-needed t (p ∷ ps) few y = elim (Bool-cases (t.count == 0)) [
  | inl z ↦ absurd (ground (arith, sym y ∙ no_packets (λ a b. 0) t (p ∷ ps) z))
  | inr z ↦ ground (arith, z, few)
]

folded-joined :
    (ready : ℕ → ℕ → ℕ) (t : PktTable) (ps : List PollFd)
    → let ss = secondaries t ps in
      let out = joined_all ready t ps in
      folded ss ps (fill_all ready (ps ++ twins ss ps)) ≡ some (polled (ready_count out) out)
unfolding folded
folded-joined ready t ps =
    let ss = secondaries t ps in
    let f = fill ready in
    let result = λ (x : List PollFd). some (polled (ready_count x) x) in
    ap result (
      ap₂ (fold_twins ss ps) (take-map f ps (twins ss ps)) (drop-map f ps (twins ss ps))
      ∙ fold_twins-joined ready t ps)

-- Where the host answers every slot by its descriptor and the events asked for, a poll of at most 64
-- descriptors finds for each what the host has for it, joined with what it has for the second socket
-- where the descriptor is a packet socket with one, and counts each descriptor with something once.
pub host_ppoll_joins :
    (ready : ℕ → ℕ → ℕ) (t : PktTable) (inner : List PollFd → Option Answer) (ps : List PollFd)
    → ((qs : List PollFd) → inner qs ≡ fill_all ready qs)
    → length ps ≤ 64
    → let out = joined_all ready t ps in host_ppoll t inner ps ≡ some (polled (ready_count out) out)
host_ppoll_joins ready t inner ps by_slot few =
    let ss = secondaries t ps in
    elim (Bool-cases (has_twin ss)) [
      | inr n ↦
          host_ppoll-plain t inner ps n
          ∙ by_slot ps
          ∙ ap (λ (x : List PollFd). some (polled (ready_count x) x))
              (sym (has_twin-none ready t ps n))
      | inl y ↦
          host_ppoll-longer t inner ps (longer-needed t ps few y) y
          ∙ ap (folded ss ps) (by_slot (ps ++ twins ss ps))
          ∙ folded-joined ready t ps
    ]
