-- ===== src/Api/Outputs.antt =====
-- The exports of src/lib.rs that fill a caller's buffer write inside it.
use kvasilloni.Prelude.{
  ℕ, zero, suc, ap, ◌+◌, ◌-◌, ◌≤◌, ◌≡◌, refl, inl, inr, ◌||◌, List, [], ◌∷◌, ◌++◌, Option, none,
  some, length, take, drop, min, ◌==◌, arith, length-append, length-take, length-drop, Bool-cases,
}
use kvasilloni.Transport.Conn.{Conn}
use kvasilloni.Api.Memory.{
  safe, fault, Buffer, Filled, filled, write_bytes, u32_to_le, u64_to_le, out_u32, out_u64,
  out_cstr, zeros,
}
use kvasilloni.Api.Codes.{can_err_invhandle}
use kvasilloni.Api.Table.{World, lookup, with_conn}
use kvasilloni.Api.Control.{kept, flush_conn, level_out, can_io_ctl, can_get_bus_statistics}
use kvasilloni.Api.Info.{can_get_channel_data, can_get_error_text, error_text}

-- The caller's buffer has the size that the caller says.
abbrev pub HasSize : Buffer → ℕ → Type 0
HasSize none size = Unit
HasSize (some buf) size = size ≤ length buf

-- The buffer after a call is the caller's, of the same length.
abbrev pub Same : Buffer → Buffer → Type 0
Same none none = Unit
Same (some buf) (some buf') = length buf' ≡ length buf
Same _ _ = ⊥

-- The call wrote nothing outside the buffer.
abbrev pub Keeps : Buffer → Filled → Type 0
Keeps buf (safe (buf', code)) = Same buf buf'
Keeps buf fault = ⊥

Same-refl : (buf : Buffer) → Same buf buf
Same-refl none = tt
Same-refl (some buf) = refl

filled-Keeps :
    (buf src : List ℕ) → length src ≤ length buf → Keeps (some buf) (filled (write_bytes buf src))
filled-Keeps buf src h =
    ground (arith, h, length-append src (drop (length src) buf), length-drop (length src) buf)

out_u32-Keeps : (buf : Buffer) (size val : ℕ) → HasSize buf size → Keeps buf (out_u32 buf size val)
unfolding out_u32
out_u32-Keeps none size val h = tt
out_u32-Keeps (some buf) size val h = ground (arith, h, filled-Keeps buf (u32_to_le val))

out_u64-Keeps : (buf : Buffer) (size val : ℕ) → HasSize buf size → Keeps buf (out_u64 buf size val)
unfolding out_u64
out_u64-Keeps none size val h = tt
out_u64-Keeps (some buf) size val h = ground (arith, h, filled-Keeps buf (u64_to_le val))

terminated-length : (n : ℕ) (s : List ℕ) → length (take n s ++ 0 ∷ []) ≡ min n (length s) + 1
terminated-length n s = omega (arith, length-append (take n s) (0 ∷ []), length-take n s)

out_cstr-Keeps :
    (buf : Buffer) (size : ℕ) (s : List ℕ) → HasSize buf size → Keeps buf (out_cstr buf size s)
unfolding out_cstr
out_cstr-Keeps none size s h = tt
out_cstr-Keeps (some buf) size s h =
    let n = min (length s) (size - 1) in
    ground (arith, h, filled-Keeps buf (take n s ++ 0 ∷ []), terminated-length n s)

kept-Keeps : (buf : Buffer) (r : World × ℕ) → Keeps buf (kept buf r).1
kept-Keeps buf (w, code) = Same-refl buf

-- `canGetChannelData` writes nothing outside a buffer of the size given, for any item and channel.
pub can_get_channel_data-Keeps :
    (channel item : ℕ) (buf : Buffer) (size : ℕ)
    → HasSize buf size
    → Keeps buf (can_get_channel_data channel item buf size)
unfolding can_get_channel_data
can_get_channel_data-Keeps channel item buf size h = elim (Bool-cases (item == 13)) [
  | inl e ↦ rw e (out_cstr-Keeps buf size _ h)
  | inr e ↦ rw e (elim (Bool-cases (item == 26)) [
    | inl e ↦ rw e (out_cstr-Keeps buf size _ h)
    | inr e ↦ rw e (elim (Bool-cases (item == 24)) [
      | inl e ↦ rw e (out_cstr-Keeps buf size _ h)
      | inr e ↦ rw e (elim (Bool-cases (item == 1)) [
        | inl e ↦ rw e (out_u32-Keeps buf size _ h)
        | inr e ↦ rw e (elim (Bool-cases (item == 3 || item == 4 || item == 5)) [
          | inl e ↦ rw e (out_u32-Keeps buf size _ h)
          | inr e ↦ rw e (elim (Bool-cases (item == 6)) [
            | inl e ↦ rw e (out_u32-Keeps buf size _ h)
            | inr e ↦ rw e (elim (Bool-cases (item == 7)) [
              | inl e ↦ rw e (out_u64-Keeps buf size _ h)
              | inr e ↦ rw e (Same-refl buf)
            ])
          ])
        ])
      ])
    ])
  ])
]

-- `canGetErrorText` writes nothing outside a buffer of the size given, for any code.
pub can_get_error_text-Keeps :
    (e : ℕ) (buf : Buffer) (size : ℕ) → HasSize buf size → Keeps buf (can_get_error_text e buf size)
unfolding can_get_error_text
can_get_error_text-Keeps e none size h = tt
can_get_error_text-Keeps e (some buf) size h =
    let n = min (size - 1) (length (error_text e)) in
    ground (
      arith,
      h,
      filled-Keeps buf (take n (error_text e) ++ 0 ∷ []),
      terminated-length n (error_text e),
    )

level-Keeps :
    (buf : Buffer) (size : ℕ) (c : Option Conn)
    → HasSize buf size
    → Keeps buf (level_out buf size c)
level-Keeps buf size none h = Same-refl buf
level-Keeps buf size (some c) h = out_u32-Keeps buf size _ h

-- `canIoCtl` writes nothing outside a buffer of the size given, for any function, handle and world.
pub can_io_ctl-Keeps :
    (hnd func : ℕ) (buf : Buffer) (size : ℕ) (w : World)
    → HasSize buf size
    → Keeps buf (can_io_ctl hnd func buf size w).1
unfolding can_io_ctl
can_io_ctl-Keeps hnd func buf size w h = elim (Bool-cases (func == 10)) [
  | inl e ↦ rw e (kept-Keeps buf (with_conn hnd can_err_invhandle flush_conn w))
  | inr e ↦ rw e (elim (Bool-cases (func == 11 || func == 6 || func == 7 || func == 13)) [
    | inl e ↦ rw e (Same-refl buf)
    | inr e ↦ rw e (elim (Bool-cases (func == 12)) [
      | inl e ↦ rw e (out_u32-Keeps buf size _ h)
      | inr e ↦ rw e (elim (Bool-cases (func == 8)) [
        | inl e ↦ rw e (level-Keeps buf size (lookup hnd w.conns) h)
        | inr e ↦ rw e (elim (Bool-cases (func == 9)) [
          | inl e ↦ rw e (out_u32-Keeps buf size _ h)
          | inr e ↦ rw e (Same-refl buf)
        ])
      ])
    ])
  ])
]

length-zeros : (n : ℕ) → length (zeros n) ≡ n
length-zeros zero = refl
length-zeros (suc n) = ap suc (length-zeros n)

can_get_bus_statistics-Keeps :
    (hnd : ℕ) (buf : Buffer) (size : ℕ)
    → HasSize buf size
    → Keeps buf (can_get_bus_statistics hnd buf size)
unfolding can_get_bus_statistics
can_get_bus_statistics-Keeps hnd none size h = tt
can_get_bus_statistics-Keeps hnd (some buf) size h =
    ground (arith, h, filled-Keeps buf (zeros size), length-zeros size)

-- The calls that fill a buffer whose size the caller gives.
pub data Fill : Type 0 where
  channel_data : ℕ → ℕ → Fill
  error_message : ℕ → Fill
  control : ℕ → ℕ → Fill
  bus_statistics : ℕ → Fill

unfoldable pub fill : Fill → Buffer → ℕ → World → Filled
unfolding can_get_channel_data can_get_error_text can_io_ctl can_get_bus_statistics
fill (channel_data channel item) buf size w = can_get_channel_data channel item buf size
fill (error_message e) buf size w = can_get_error_text e buf size
fill (control hnd func) buf size w = (can_io_ctl hnd func buf size w).1
fill (bus_statistics hnd) buf size w = can_get_bus_statistics hnd buf size

-- The four exports that fill a buffer of a size that the caller gives, canGetChannelData,
-- canGetErrorText, canIoCtl and canGetBusStatistics, write nothing outside a buffer that has this
-- size, for any item, error, function, handle and world, and keep its length.
pub fill-Keeps :
    (f : Fill) (buf : Buffer) (size : ℕ) (w : World)
    → HasSize buf size
    → Keeps buf (fill f buf size w)
unfolding fill
fill-Keeps (channel_data channel item) buf size w h =
    can_get_channel_data-Keeps channel item buf size h
fill-Keeps (error_message e) buf size w h = can_get_error_text-Keeps e buf size h
fill-Keeps (control hnd func) buf size w h = can_io_ctl-Keeps hnd func buf size w h
fill-Keeps (bus_statistics hnd) buf size w h = can_get_bus_statistics-Keeps hnd buf size h
