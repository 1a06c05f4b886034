-- ===== src/Buffer/Tests.antt =====
-- Runs of the buffer, and its theorems at concrete inputs.
use xnetty.Prelude.{◌-◌, ◌^◌, ◌≡◌, refl, [], ◌∷◌, arith}
use xnetty.Memory.{ok, out_of_range, fault, store, load}
use xnetty.Memory.Plain.{plain}
use xnetty.Buffer.{
  ByteBuf, readable_bytes, check_readable, read_bytes, write_bytes, ensure_writable, slice,
}
use xnetty.Buffer.Growth.{MakesRoom, ensure_writable-MakesRoom}
use xnetty.Buffer.Write.{Appends, write_bytes-Appends}
use xnetty.Buffer.Read.{Reads, read_bytes-Reads}
use xnetty.Buffer.Copies.{slice_overflow}

-- Four bytes of capacity; 7 was read, 8 and 9 are readable.
abbrev used : ByteBuf
used = record { block = 7 ∷ 8 ∷ 9 ∷ 0 ∷ []; capacity = 4; reader_index = 1; writer_index = 3 }

abbrev full : ByteBuf
full = record { block = 7 ∷ 8 ∷ 9 ∷ 6 ∷ []; capacity = 4; reader_index = 0; writer_index = 4 }

write_in_place :
    write_bytes plain used (5 ∷ [])
    ≡ ok (record used { block = 7 ∷ 8 ∷ 9 ∷ 5 ∷ []; writer_index = 4 })
unfolding write_bytes ensure_writable store
write_in_place = refl

read_two : read_bytes used 2 ≡ ok (8 ∷ 9 ∷ [], record used { reader_index = 3 })
unfolding read_bytes check_readable readable_bytes load
read_two = refl

read_too_many : read_bytes used 3 ≡ out_of_range
unfolding read_bytes check_readable readable_bytes load
read_too_many = refl

write_bytes-Appends_example : Appends plain used (5 ∷ 6 ∷ []) (write_bytes plain used (5 ∷ 6 ∷ []))
write_bytes-Appends_example = write_bytes-Appends plain (5 ∷ 6 ∷ []) (omega arith) (omega arith)

ensure_writable-MakesRoom_example : MakesRoom plain used 13 (ensure_writable plain used 10)
ensure_writable-MakesRoom_example = ensure_writable-MakesRoom plain 10 (omega arith) (omega arith)

read_bytes-Reads_example : Reads used 2 (read_bytes used 2)
read_bytes-Reads_example = read_bytes-Reads 2 (omega arith)

slice_overflow_example : slice plain used (2 ^ 64 - 1) 2 ≡ fault
slice_overflow_example =
    slice_overflow plain (2 ^ 64 - 1) 2 (omega arith) (omega arith) (omega arith)
