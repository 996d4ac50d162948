-- ===== src/Message/Fields.antt =====
-- Fields written by `<<` and read by `>>` with the same sizes come back.
use my_mmoproject.Base.{
  ℕ, ◌+◌, ◌^◌, ◌<◌, ◌≤◌, ◌≡◌, refl, sym, ap, ◌∙◌, List, [], ◌∷◌, ◌++◌, map, length, take, drop,
  slice, length-append, append-nil, append_assoc, take-append_of_length, drop-append_of_length,
  arith, drop-drop, length-drop,
}
use native.Mathlib.Decide.{dec_le}
use my_mmoproject.Fault.{Result, ok, err, has_not_data, not_enough_space, ◌>>=◌}
use my_mmoproject.Bytes.{to_bytes, of_bytes, length-to_bytes, of_bytes-to_bytes}
use my_mmoproject.Message.{Message, get_data, peek, shift_in, shift_out}

-- A value and the size of its type.
pub record Field : Type 0 where
  pub size : ℕ
  pub value : ℕ

-- The value fits its type.
abbrev pub Fits : Field → Type 0
Fits f = f.value < 256 ^ f.size

abbrev pub AllFit : List Field → Type 0
AllFit [] = Unit
AllFit (f ∷ fs) = Fits f × AllFit fs

abbrev pub total_size : List Field → ℕ
total_size [] = 0
total_size (f ∷ fs) = f.size + total_size fs

abbrev pub encode : List Field → List ℕ
encode [] = []
encode (f ∷ fs) = to_bytes f.size f.value ++ encode fs

-- `msg << a << b << …`
unfoldable pub write_fields : Message → List Field → Result Message
write_fields m [] = ok m
write_fields m (f ∷ fs) = shift_in m f.size f.value >>= λ m'. write_fields m' fs

-- `msg >> a >> b >> …` at types of the given sizes.
unfoldable pub read_fields : Message → List ℕ → Result (Message × List ℕ)
read_fields m [] = ok (m, [])
read_fields m (n ∷ ns) = do (m', v) ← shift_out m n; (m'', vs) ← read_fields m' ns; ok (m'', v ∷ vs)

-- What `>>` has yet to hand out.
abbrev pub unread : Message → List ℕ
unread m = drop m.front m.written

pub length-encode : (fs : List Field) → length (encode fs) ≡ total_size fs
length-encode [] = refl
length-encode (f ∷ fs) = omega (
  arith,
  length-append (to_bytes f.size f.value) (encode fs),
  length-to_bytes f.size f.value,
  length-encode fs,
)

shift_in_fits :
    (m : Message) (n v : ℕ)
    → length m.written + n ≤ m.end
    → shift_in m n v ≡ ok (record m { written = m.written ++ to_bytes n v })
unfolding shift_in
shift_in_fits m n v h = ground arith

shift_in_overflow :
    (m : Message) (n v : ℕ) → m.end < length m.written + n → shift_in m n v ≡ err not_enough_space
unfolding shift_in
shift_in_overflow m n v h = ground arith

-- Fields that fit go behind what was written, and nothing else of the message changes.
pub write_fields_appends :
    (m : Message) (fs : List Field)
    → length m.written + total_size fs ≤ m.end
    → write_fields m fs ≡ ok (record m { written = m.written ++ encode fs })
unfolding write_fields
write_fields_appends m [] h = ap (λ w. ok (record m { written = w })) (sym (append-nil m.written))
write_fields_appends m (f ∷ fs) h = rw (shift_in_fits m f.size f.value (omega arith)) (
    write_fields_appends (record m { written = m.written ++ to_bytes f.size f.value }) fs
      (omega
        (arith, length-append m.written (to_bytes f.size f.value), length-to_bytes f.size f.value))
    ∙ ap (λ w. ok (record m { written = w }))
        (append_assoc m.written (to_bytes f.size f.value) (encode fs)))

-- Fields that do not fit raise NotEnoughSpace.
pub write_fields_overflow :
    (m : Message) (fs : List Field)
    → length m.written ≤ m.end
    → m.end < length m.written + total_size fs
    → write_fields m fs ≡ err not_enough_space
unfolding write_fields
write_fields_overflow m [] room h = absurd (omega arith)
write_fields_overflow m (f ∷ fs) room h = elim (dec_le (length m.written + f.size) m.end) [
  | yes fits ↦ rw (shift_in_fits m f.size f.value fits) (
      write_fields_overflow (record m { written = m.written ++ to_bytes f.size f.value }) fs
        (omega (
          arith,
          length-append m.written (to_bytes f.size f.value),
          length-to_bytes f.size f.value,
        ))
        (omega (
          arith,
          length-append m.written (to_bytes f.size f.value),
          length-to_bytes f.size f.value,
        )))
  | no big ↦ rw (shift_in_overflow m f.size f.value (omega arith))
]

module _ (m : Message) (bytes rest : List ℕ) (n : ℕ) where
  pub unread_room :
      m.front ≤ length m.written
      → unread m ≡ bytes ++ rest
      → length bytes ≡ n
      → m.front + n ≤ length m.written
  unread_room inside e k =
      omega (arith, length-drop m.front m.written, ap length e, length-append bytes rest)

  pub unread_take : unread m ≡ bytes ++ rest → length bytes ≡ n → slice m.front n m.written ≡ bytes
  unread_take e k = ap (take n) e ∙ take-append_of_length n bytes rest k

  pub unread_rest :
      unread m ≡ bytes ++ rest → length bytes ≡ n → drop (m.front + n) m.written ≡ rest
  unread_rest e k =
      sym (drop-drop m.front n m.written) ∙ (ap (drop n) e ∙ drop-append_of_length n bytes rest k)

  -- GetData hands out the next bytes, and the rest stays to be read.
  pub get_data_takes :
      m.front ≤ length m.written
      → unread m ≡ bytes ++ rest
      → length bytes ≡ n
      → (get_data m n ≡ ok (record m { front = m.front + n }, bytes))
        × (unread (record m { front = m.front + n }) ≡ rest)
  unfolding get_data
  get_data_takes inside e k =
      (ground (arith, unread_room inside e k, unread_take e k), unread_rest e k)

  pub shift_out_takes :
      m.front ≤ length m.written
      → unread m ≡ bytes ++ rest
      → length bytes ≡ n
      → shift_out m n ≡ ok (record m { front = m.front + n }, of_bytes bytes)
  unfolding shift_out
  shift_out_takes inside e k = ground (arith, unread_room inside e k, unread_take e k)

-- A read past what was written raises HasNotData, by GetData, Peek and `>>` alike.
pub read_past_end :
    (m : Message) (n : ℕ)
    → length m.written < m.front + n
    → (get_data m n ≡ err has_not_data)
      × (peek m n ≡ err has_not_data)
      × (shift_out m n ≡ err has_not_data)
unfolding get_data peek shift_out
read_past_end m n h = ground arith

-- What `<<` wrote at the front, `>>` reads with the same sizes, and stops behind it.
pub read_fields-encode :
    (m : Message) (fs : List Field) (rest : List ℕ)
    → AllFit fs
    → m.front ≤ length m.written
    → unread m ≡ encode fs ++ rest
    → (m' : Message) × (read_fields m (map (λ f. f.size) fs) ≡ ok (m', map (λ f. f.value) fs))
      × (unread m' ≡ rest)
unfolding read_fields
read_fields-encode m [] rest fit inside e = (m, refl, e)
read_fields-encode m (f ∷ fs) rest fit inside e =
    let bytes = to_bytes f.size f.value in
    let cut : unread m ≡ bytes ++ (encode fs ++ rest) = e ∙ append_assoc bytes (encode fs) rest in
    let width = length-to_bytes f.size f.value in
    let m' : Message = record m { front = m.front + f.size } in
    let (last, done, left) =
      read_fields-encode m' fs rest fit.1
        (unread_room m bytes (encode fs ++ rest) f.size inside cut width)
        (unread_rest m bytes (encode fs ++ rest) f.size cut width) in
    (
      last,
      rw (
        shift_out_takes m bytes (encode fs ++ rest) f.size inside cut width,
        done,
        of_bytes-to_bytes f.size f.value fit.0,
      ),
      left,
    )
