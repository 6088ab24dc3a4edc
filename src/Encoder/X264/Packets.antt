-- ===== src/Encoder/X264/Packets.antt =====
-- src/encoder/mod.rs: the packets that `drain_packets` hands out.
use waylandwebstream_rs.Base.{
  ℕ, zero, suc, ◌+◌, ◌%◌, ◌^◌, ◌<◌, ◌≡◌, refl, Bool, true, false, Option, none, some, List, [], ◌∷◌,
  map, arith, if◌then◌else◌,
}
use waylandwebstream_rs.Encoder.{EncodedPacket}
use waylandwebstream_rs.Encoder.X264.{push, drain_packets, Received, again, failed, packet}

-- The packets that arrive before EAGAIN or a failure.
abbrev pub count : Received → ℕ
count again = 0
count failed = 0
count (packet bytes key more) = suc (count more)

-- The run ends with EAGAIN.
abbrev pub ends_well : Received → Bool
ends_well again = true
ends_well failed = false
ends_well (packet bytes key more) = ends_well more

-- Consecutive `u32` ids.
abbrev pub ids : ℕ → ℕ → List ℕ
ids id zero = []
ids id (suc n) = id ∷ ids ((id + 1) % 2 ^ 32) n

abbrev pub frame_ids : {F : Type 0} → Option (List (EncodedPacket F)) → Option (List ℕ)
frame_ids none = none
frame_ids (some packets) = some (map (λ p. p.frame_id) packets)

module _ {F : Type 0} (ms no_time : F) (now : ℕ) where
  frame_ids-push :
      (p : EncodedPacket F) (r : Option (List (EncodedPacket F))) (is : List ℕ) (ok : Bool)
      → frame_ids r ≡ (if ok then some is else none)
      → frame_ids (push p r) ≡ (if ok then some (p.frame_id ∷ is) else none)
  frame_ids-push p none is true h = ground arith
  frame_ids-push p none is false h = refl
  frame_ids-push p (some ps) is true h = ground arith
  frame_ids-push p (some ps) is false h = ground arith

  -- However a drain ends, the next id moves on by the number of packets received, modulo 2 ^ 32; and
  -- the packets come out with consecutive ids from the first one if the drain ended with EAGAIN, and
  -- not at all if it failed.
  pub drain_packets-ids :
      (r : Received) (id : ℕ)
      → id < 2 ^ 32
      → ((drain_packets r id ms no_time now).0 ≡ (id + count r) % 2 ^ 32)
        × (frame_ids (drain_packets r id ms no_time now).1
            ≡ (if ends_well r then some (ids id (count r)) else none))
  unfolding drain_packets
  drain_packets-ids again id h = (omega arith, refl)
  drain_packets-ids failed id h = (omega arith, refl)
  drain_packets-ids (packet bytes key more) id h =
      let ih = drain_packets-ids more ((id + 1) % 2 ^ 32) (omega arith) in
      (
        omega (arith, ih.0),
        frame_ids-push _ _ (ids ((id + 1) % 2 ^ 32) (count more)) (ends_well more) ih.1,
      )
