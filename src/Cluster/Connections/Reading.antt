-- ===== src/Cluster/Connections/Reading.antt =====
-- `_read_tcp_message` of tattle/cluster.py: what it reads from the segments of a stream.
use tattle.Prelude.{
  ℕ, zero, suc, ◌+◌, ◌-◌, ◌<◌, ◌≡◌, refl, ◌∙◌, ap, some, List, [], ◌∷◌, ◌++◌, arith, length,
  length-append, take, drop, take-append, drop-append, take-append_le, length-drop,
}
use tattle.Prelude.Int.{pos, ◌-ℤ◌}
use tattle.Exec.{ok}
use tattle.Messages.{Bytes}
use tattle.Messages.Wire.{unpack_header}
use tattle.Messages.Wire.RoundTrip.{IsFrame}
use tattle.Cluster.Connections.{
  put_back, stream_read, read_tcp_body, read_tcp_data, read_tcp_message,
}

put_back-cons :
    (bs : Bytes) (segments : List Bytes) → 0 < length bs → put_back bs segments ≡ bs ∷ segments
put_back-cons [] segments h = elim h [ ]
put_back-cons (b ∷ bs) segments h = refl

stream_read-segment :
    (n : ℕ) (segment : Bytes) (segments : List Bytes)
    → 0 < n
    → stream_read (pos n) (segment ∷ segments)
      ≡ (take n segment, put_back (drop n segment) segments)
unfolding stream_read
stream_read-segment zero segment segments h = elim h [ ]
stream_read-segment (suc n) segment segments h = refl

read_tcp_data-eq :
    (bs : Bytes) (segments : List Bytes)
    → 0 < length bs
    → read_tcp_data (take 9 bs) segments
      ≡ read_tcp_body (take 9 bs) (unpack_header (take 9 bs)) segments
unfolding read_tcp_data
read_tcp_data-eq [] segments h = elim h [ ]
read_tcp_data-eq (b ∷ bs) segments h = refl

take-split : (n m k : ℕ) (bs : Bytes) → n + m ≡ k → take n bs ++ take m (drop n bs) ≡ take k bs
take-split zero m k bs h = let same : k ≡ m = omega (arith, h) in rw same refl
take-split (suc n) m zero bs h = absurd (omega (arith, h))
take-split (suc n) zero (suc k) [] h = refl
take-split (suc n) (suc m) (suc k) [] h = refl
take-split (suc n) m (suc k) (b ∷ bs) h = ap (λ cs. b ∷ cs) (take-split n m k bs (omega (arith, h)))

drop-split : (n m k : ℕ) (bs : Bytes) → n + m ≡ k → drop m (drop n bs) ≡ drop k bs
drop-split zero m k bs h = let same : k ≡ m = omega (arith, h) in rw same refl
drop-split (suc n) m zero bs h = absurd (omega (arith, h))
drop-split (suc n) zero (suc k) [] h = refl
drop-split (suc n) (suc m) (suc k) [] h = refl
drop-split (suc n) m (suc k) (b ∷ bs) h = drop-split n m k bs (omega (arith, h))

-- If a segment is longer than a header, and the header in it states a size above that of the header, the
-- message that is read is what the segment holds of so many bytes, and what stands behind them is left. So
-- where a message goes on in the next segment, it is cut short.
pub read_tcp_message-segment :
    (segment : Bytes) (segments : List Bytes) (size flags crc : ℕ)
    → 9 < length segment
    → 9 < size
    → unpack_header (take 9 segment) ≡ ok (size, flags, crc)
    → read_tcp_message (segment ∷ segments)
      ≡ (ok (some (take size segment)), put_back (drop size segment) segments)
unfolding read_tcp_message read_tcp_body
read_tcp_message-segment segment segments size flags crc h k e =
    let n = size - 9 in
    let whole : 9 + n ≡ size = omega arith in
    let minus : pos size -ℤ pos 9 ≡ pos n = ground arith in
    rw
      (
        stream_read,
        put_back-cons (drop 9 segment) segments (omega (arith, length-drop 9 segment)),
        read_tcp_data-eq segment (drop 9 segment ∷ segments) (omega arith),
        e,
        minus,
        stream_read-segment n (drop 9 segment) segments (omega arith),
        take-split 9 n size segment whole,
        drop-split 9 n size segment whole,
      )
      refl

-- A message that stands whole in a segment is read, and what stands behind it is left.
pub read_tcp_message-frame :
    (buf rest : Bytes) (segments : List Bytes)
    → IsFrame buf
    → read_tcp_message ((buf ++ rest) ∷ segments) ≡ (ok (some buf), put_back rest segments)
read_tcp_message-frame buf rest segments f =
    let long = f.long in
    let header : unpack_header (take 9 (buf ++ rest)) ≡ ok (length buf, f.flags, f.crc) =
      ap unpack_header (take-append_le 9 buf rest (omega arith)) ∙ f.header in
    rw
      (
        read_tcp_message-segment (buf ++ rest) segments (length buf) f.flags f.crc
            (omega (arith, length-append buf rest)) long header,
        take-append (length buf) buf rest refl,
        drop-append (length buf) buf rest refl,
      )
      refl
