-- ===== src/Client/Scene/Chains.antt =====
-- A chain of reads takes the fields that one of writes has put there, and a batch's loop its records.
use mathlib.Core.Path.{fun_ext}
use my_mmoproject.Base.{
  ℕ, ◌+◌, ◌^◌, ◌≤◌, ◌<◌, ◌≡◌, refl, sym, ap, ◌∙◌, List, [], ◌∷◌, ◌++◌, map, length, arith,
  append-nil, append_assoc,
}
use my_mmoproject.Fault.{Result, ok, err, ◌>>=◌}
use my_mmoproject.Bytes.{to_bytes, length-to_bytes, of_bytes-to_bytes}
use my_mmoproject.Message.{Message, shift_out}
use my_mmoproject.Message.Fields.{
  Field, AllFit, encode, read_fields, unread, unread_room, unread_rest, shift_out_takes,
}
use my_mmoproject.Packet.{each, int16}
use my_mmoproject.Client.World.{World}
use my_mmoproject.Client.Scene.{read_loop, on_spawn, on_spawn_batch, loop_count}

abbrev pub IsInside : Message → Type 0
IsInside m = m.front ≤ length m.written

-- One field, ...
pub read_one :
    (m : Message) (n v : ℕ) (rest : List ℕ)
    → v < 256 ^ n
    → IsInside m
    → unread m ≡ to_bytes n v ++ rest
    → (m' : Message) × (shift_out m n ≡ ok (m', v)) × IsInside m' × (unread m' ≡ rest)
read_one m n v rest fit inside e =
    let width = length-to_bytes n v in
    (
      record m { front = m.front + n },
      shift_out_takes m (to_bytes n v) rest n inside e width
          ∙ ap (λ x. ok (record m { front = m.front + n }, x)) (of_bytes-to_bytes n v fit),
      unread_room m (to_bytes n v) rest n inside e width,
      unread_rest m (to_bytes n v) rest n e width,
    )

-- ... and a chain of them.
pub reads :
    (m : Message) (fs : List Field) (rest : List ℕ)
    → AllFit fs
    → IsInside m
    → unread m ≡ encode fs ++ rest
    → (m' : Message) × (read_fields m (map (λ f. f.size) fs) ≡ ok (m', map (λ f. f.value) fs))
      × IsInside m'
      × (unread m' ≡ rest)
unfolding read_fields
reads m [] rest fit inside e = (m, refl, inside, e)
reads m (f ∷ fs) rest fit inside e =
    let (m', one, inside', left) =
      read_one m f.size f.value (encode fs ++ rest) fit.0 inside
        (e ∙ append_assoc (to_bytes f.size f.value) (encode fs) rest) in
    let (m'', more, inside'', left') = reads m' fs rest fit.1 inside' left in
    (m'', rw (one, more) refl, inside'', left')

pub encode-append : (fs gs : List Field) → encode (fs ++ gs) ≡ encode fs ++ encode gs
encode-append [] gs = refl
encode-append (f ∷ fs) gs =
    ap (λ r. to_bytes f.size f.value ++ r) (encode-append fs gs)
    ∙ sym (append_assoc (to_bytes f.size f.value) (encode fs) (encode gs))

pub AllFit-append : (fs gs : List Field) → AllFit (fs ++ gs) → AllFit fs × AllFit gs
AllFit-append [] gs a = (tt, a)
AllFit-append (f ∷ fs) gs a = let (b, c) = AllFit-append fs gs a.1 in ((a.0, b), c)

-- What the records of a batch do one after the other.
abbrev pub in_turn {ℓ} : {A : Type ℓ} → (World → A → Result World) → List A → World → Result World
in_turn act [] w = ok w
in_turn act (a ∷ as') w = act w a >>= in_turn act as'

pub bind_assoc :
    {A B C : Type 0} (r : Result A) (f : A → Result B) (g : B → Result C)
    → ((r >>= f) >>= g) ≡ (r >>= λ a. f a >>= g)
bind_assoc (err fault) f g = refl
bind_assoc (ok a) f g = refl

pub bind_ok : {A : Type 0} (r : Result A) → (r >>= λ a. ok a) ≡ r
bind_ok (err fault) = refl
bind_ok (ok a) = refl

pub nothing_said : {A : Type 0} (rs : List A) (w : World) → in_turn (λ w' r. ok w') rs w ≡ ok w
nothing_said [] w = refl
nothing_said (r ∷ rs) w = nothing_said rs w

module _ {A : Type 0} (fields : A → List Field) (sizes : List ℕ)
    (act : World → List ℕ → Result World) (does : World → A → Result World)
    (sized : (a : A) → map (λ f. f.size) (fields a) ≡ sizes)
    (means : (w : World) (a : A) → act w (map (λ f. f.value) (fields a)) ≡ does w a) where
  -- The loop reads every record, and does what it says.
  pub loop_reads :
      (m : Message) (rs : List A) (rest : List ℕ)
      → AllFit (each fields rs)
      → IsInside m
      → unread m ≡ encode (each fields rs) ++ rest
      → (m' : Message) × IsInside m'
        × (unread m' ≡ rest)
        × ((w : World)
            → read_loop sizes act (length rs) w m ≡ (in_turn does rs w >>= λ w'. ok (w', m')))
  unfolding read_loop
  loop_reads m [] rest fit inside e = (m, inside, e, λ w. refl)
  loop_reads m (r ∷ rs) rest fit inside e =
      let (fit', fits) = AllFit-append (fields r) (each fields rs) fit in
      let (m', done, inside', left) =
        reads m (fields r) (encode (each fields rs) ++ rest) fit' inside (
          e
          ∙ ap (λ b. b ++ rest) (encode-append (fields r) (each fields rs))
          ∙ append_assoc (encode (fields r)) (encode (each fields rs)) rest) in
      let (m'', inside'', left', more) = loop_reads m' rs rest fits inside' left in
      (
        m'',
        inside'',
        left',
        λ w.
            ap (λ r'. r' >>= λ x. act w x.1 >>= λ w'. read_loop sizes act (length rs) w' x.0)
              (ap (read_fields m) (sym (sized r)) ∙ done)
            ∙ ap (λ r'. r' >>= λ w'. read_loop sizes act (length rs) w' m') (means w r)
            ∙ ap (λ k. does w r >>= k) (fun_ext more)
            ∙ sym (bind_assoc (does w r) (in_turn does rs) (λ w'. ok (w', m''))),
      )

  pub spawn_reads :
      (w : World) (m : Message) (r : A)
      → AllFit (fields r)
      → IsInside m
      → unread m ≡ encode (fields r)
      → on_spawn sizes act w m ≡ does w r
  unfolding on_spawn
  spawn_reads w m r fit inside e =
      let (m', done, i, u) = reads m (fields r) [] fit inside (e ∙ sym (append-nil _)) in
      ap (λ x. x >>= λ y. act w y.1) (ap (read_fields m) (sym (sized r)) ∙ done) ∙ means w r

  pub batch_reads :
      (w : World) (m : Message) (rs : List A)
      → length rs < 32768
      → AllFit (int16 (length rs) ∷ each fields rs)
      → IsInside m
      → unread m ≡ encode (int16 (length rs) ∷ each fields rs)
      → on_spawn_batch sizes act w m ≡ in_turn does rs w
  unfolding on_spawn_batch
  batch_reads w m rs few fit inside e =
      let (m', counted, i, u) = read_one m 2 (length rs) (encode (each fields rs)) fit.0 inside e in
      let (m'', i', u', looped) = loop_reads m' rs [] fit.1 i (u ∙ sym (append-nil _)) in
      let n : loop_count (length rs) ≡ length rs = ground (arith, few) in
      rw (counted, n, looped w) (bind_assoc (in_turn does rs w) _ _ ∙ bind_ok (in_turn does rs w))
