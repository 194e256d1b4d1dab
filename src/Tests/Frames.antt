-- ===== src/Tests/Frames.antt =====
-- Frames of five and two bytes, whole and cut.
use dpush.Base.{
  ℕ, ◌+◌, ◌-◌, ◌≤◌, ◌≡◌, ◌≢◌, refl, List, [], ◌∷◌, ◌++◌, Bool, true, false, arith, length, take,
  drop,
}
use dpush.Frame.{
  next_frame, build_frame, frame, short, length_error, extended_length, mask_offset, cut_frame,
  payload_of, length_field,
}
use dpush.Frame.{unmask}
use dpush.Frame.Header.{field_bytes}
use dpush.Frame.Bounds.{unmasked, next_frame_bounds}
use dpush.Frame.Read.{returned, no_fuel, on_read, read_loop}
use dpush.Frame.RoundTrip.{client_frame, next_frame-client_frame}
use dpush.Frame.Stream.{on_read-wire, on_read-drops, on_read-ne-no_fuel}
use dpush.Frame.Wire.{Sent, IsSent, wire}
use dpush.Tests.Instances.{list_buffer}

program : Unit {0}
unfolding next_frame extended_length mask_offset cut_frame payload_of length_field build_frame
    read_loop on_read
program = tt

abbrev pub max : ℕ
max = 1000

abbrev pub key : List ℕ
key = 1 ∷ 2 ∷ 3 ∷ 4 ∷ []

abbrev pub hello : List ℕ
hello = 104 ∷ 101 ∷ 108 ∷ 108 ∷ 111 ∷ []

abbrev pub sent_hello : Sent
sent_hello = record { first = 0x82; key = key; payload = hello }

-- a masked frame byte by byte
abbrev raw : List ℕ
raw = 0x82 ∷ 0x85 ∷ 1 ∷ 2 ∷ 3 ∷ 4 ∷ 105 ∷ 103 ∷ 111 ∷ 104 ∷ 110 ∷ []

hello_found : next_frame max raw ≡ frame hello 11
unfolding program
hello_found = refl

-- a length of 2^64 - 1 wraps the sum of offset and length; std::string refuses it
wrap_refused :
    next_frame max (0x82 ∷ 127 ∷ 255 ∷ 255 ∷ 255 ∷ 255 ∷ 255 ∷ 255 ∷ 255 ∷ 255 ∷ []) ≡ length_error
unfolding program
wrap_refused = refl

next_frame-client_frame_example :
    next_frame max (client_frame 0x82 key hello ++ 7 ∷ [])
    ≡ frame hello (length (client_frame 0x82 key hello))
next_frame-client_frame_example =
    next_frame-client_frame max (omega arith) 0x82 key hello (7 ∷ []) refl (omega arith)
      (omega arith) (omega arith)

next_frame_bounds_example :
    (2 + length hello ≤ 11)
    × (11 ≤ 14 + length hello)
    × (11 ≤ length raw)
    × (length hello ≤ max)
    × (hello
        ≡ unmasked raw (11 - length hello) (take (length hello) (drop (11 - length hello) raw)))
next_frame_bounds_example = next_frame_bounds max (omega arith) raw hello_found

found_ne : next_frame max raw ≢ short
unfolding program
found_ne e = cc e

abbrev pub accept : List ℕ → Bool
accept p = true

pub sent_hello-IsSent : IsSent max sent_hello
sent_hello-IsSent = record {
  four = refl;
  key_bytes = omega arith;
  payload_bytes = omega arith;
  fits = omega arith;
}

on_read-wire_example :
    (b : List ℕ) × (b ≡ 0x82 ∷ [])
    × (on_read list_buffer max accept false (wire (sent_hello ∷ sent_hello ∷ []) ++ 0x82 ∷ [])
        ≡ returned (hello ∷ hello ∷ []) b)
on_read-wire_example =
    on_read-wire list_buffer max accept (omega arith) (sent_hello ∷ sent_hello ∷ []) (0x82 ∷ [])
      (wire (sent_hello ∷ sent_hello ∷ []) ++ 0x82 ∷ [])
      (sent_hello-IsSent, (sent_hello-IsSent, tt)) (omega arith) refl

on_read-drops_example :
    (b : List ℕ) × (b ≡ 0x82 ∷ 0x85 ∷ 1 ∷ [])
    × (on_read list_buffer max accept false (wire (sent_hello ∷ []) ++ 0x82 ∷ 0x85 ∷ 1 ∷ [])
        ≡ returned [] b)
unfolding field_bytes unmask
on_read-drops_example =
    on_read-drops list_buffer max accept (omega arith) (sent_hello ∷ []) sent_hello
      (0x82 ∷ 0x85 ∷ 1 ∷ []) 2 (3 ∷ 4 ∷ 105 ∷ 103 ∷ 111 ∷ 104 ∷ 110 ∷ [])
      (wire (sent_hello ∷ []) ++ 0x82 ∷ 0x85 ∷ 1 ∷ []) (sent_hello-IsSent, tt) sent_hello-IsSent
      (omega arith) refl refl

on_read-ne-no_fuel_example : on_read list_buffer max accept false raw ≢ no_fuel
on_read-ne-no_fuel_example = on_read-ne-no_fuel list_buffer max accept (omega arith) false raw
