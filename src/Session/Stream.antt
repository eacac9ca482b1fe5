-- ===== src/Session/Stream.antt =====
-- The bytes of a pipe of libdsys/pipe.c from the producer's memory to the consumer's.
use mathlib.Core.Path.{ap₂}
use libdsys.Prelude.{
  ℕ, ◌^◌, ◌<◌, ◌≡◌, refl, sym, ap, ◌∙◌, true, false, some, List, [], ◌++◌, arith, length, take,
  drop, append-nil, append_assoc, length-append, length-take, length-drop, take-append-drop,
}
use libdsys.Prelude.Words.{mul_size}
use libdsys.Queue.Wire.{payload}
use libdsys.Queue.Mc121.{Mc121, mc121_create, sendq_mc121, mc121_put}
use libdsys.Queue.Mc121.Inv.{mc121_create-IsValid, putq-IsValid, sendq-IsValid}
use libdsys.Queue.Mc121.Contents.{contents, length-contents}
use libdsys.Queue.Mc121.Refine.{payload-sendq}
use libdsys.Queue.Mc121.Fields.{contents-putq, contents-sendq, sendq_fields, putq_fields}
use libdsys.Session.{
  p_pipe, s_pipe, r_pipe, idle, Line, Step, puts, asks, serves, reads, Run, begins, goes,
}
use libdsys.Session.Calls.{send_went, awaited, Inv, between, read_took, nil_of_length}

-- One step keeps the invariant, and moves bytes on in their order.
step_lem :
    (made took size : ℕ) {l l' : Line} {put got : List ℕ}
    → Step made took l put got l'
    → Inv made took size l
    → Inv made took size l' × (between l ++ put ≡ got ++ between l')
unfolding p_pipe s_pipe r_pipe mc121_put
step_lem made took size {l} (puts {q' = q'} local du h e) i = (
  record {
    valid = putq-IsValid l.q local (mul_size made du) i.valid e;
    sized = (putq_fields l.q local (mul_size made du) i.valid e).2 ∙ i.sized;
    on_way = i.on_way;
  },
  append_assoc l.unread (contents l.q) (take (mul_size made du) local)
      ∙ ap (λ s. l.unread ++ s) (sym (contents-putq l.q local (mul_size made du) i.valid h e)),
)
step_lem made took size {l} (asks du e) i = (
  record { valid = i.valid; sized = i.sized; on_way = λ q. i.on_way q ∙ ap (awaited made) e },
  append-nil (between l),
)
step_lem made took size {l} (serves {out = out} {q' = q'} du e d) i =
    let n : ℕ = mul_size made du in
    let went : sendq_mc121 l.q n false ≡ some (out, q') = send_went l.q n d in
    let sent : payload out ≡ take n (contents l.q) = payload-sendq l.q n false i.valid went in
    let left : contents q' ≡ drop n (contents l.q) = contents-sendq l.q n false i.valid went in
    (
      record {
        valid = sendq-IsValid l.q n false i.valid went;
        sized = (sendq_fields l.q n false i.valid went).2 ∙ i.sized;
        on_way = λ s. omega (
          arith,
          length-append l.unread (payload out),
          i.on_way s ∙ ap (awaited made) e,
          ap length sent,
          length-take n (contents l.q),
          length-contents l.q,
          sendq_fields l.q n false i.valid went,
        );
      },
      append-nil (between l)
          ∙ ap (λ s. l.unread ++ s) (sym (take-append-drop n (contents l.q)))
          ∙ ap₂ (λ s t. l.unread ++ (s ++ t)) (sym sent) (sym left)
          ∙ sym (append_assoc l.unread (payload out) (contents q')),
    )
step_lem made took size {l}
      (reads {after = after} {rest = rest} sizes mem p du e legal long come fits came) i =
    let n : ℕ = mul_size took du in
    let (copied, left) =
      read_took sizes l.unread mem after rest p n come (omega arith) legal long fits came in
    (
      record {
        valid = i.valid;
        sized = i.sized;
        on_way = λ s. omega (
          arith,
          ap length left,
          length-drop n l.unread,
          i.on_way s ∙ ap (awaited made) e,
          ap (λ b. mul_size b du) s,
        );
      },
      append-nil (between l)
          ∙ ap (λ s. s ++ contents l.q) (sym (take-append-drop n l.unread))
          ∙ append_assoc (take n l.unread) (drop n l.unread) (contents l.q)
          ∙ ap₂ (λ s t. s ++ (t ++ contents l.q)) (sym copied) (sym left),
    )

run_lem :
    (made took size : ℕ) {l l' : Line} {put got : List ℕ}
    → Run made took l put got l'
    → Inv made took size l
    → Inv made took size l' × (between l ++ put ≡ got ++ between l')
run_lem made took size {l} begins i = (i, append-nil (between l))
run_lem made took size {l}
      (goes {l = m} {l' = l'} {put = put} {got = got} {put' = put'} {got' = got'} r st) i =
    let (j, before) = run_lem made took size r i in
    let (k, after) = step_lem made took size st j in
    (
      k,
      sym (append_assoc (between l) put put')
          ∙ ap (λ s. s ++ put') before
          ∙ append_assoc got (between m) put'
          ∙ ap (λ s. got ++ s) after
          ∙ sym (append_assoc got got' (between l')),
    )

-- A pipe that has just been created.
abbrev pub fresh : Mc121 → Line
fresh q = record { q = q; unread = []; phase = idle }

fresh-Inv :
    (made took : ℕ) (block : List ℕ) (size : ℕ) {q : Mc121}
    → length block ≡ size
    → 0 < size
    → size < 2 ^ 64
    → mc121_create true (some block) size ≡ some q
    → Inv made took size (fresh q) × (contents q ≡ [])
unfolding mc121_create
fresh-Inv made took block size {q} e h b created = (
  record {
    valid = mc121_create-IsValid block size e h b created;
    sized = ground (arith, created);
    on_way = λ s. refl;
  },
  nil_of_length (contents q) (ground (arith, length-contents q, created)),
)

-- From the creation of a pipe with room for some bytes, whatever steps its producer, the server thread and
-- its consumer take in whatever order, with numbers of units that may differ from call to call, calls of recv
-- that may cut the data anywhere, and a type that may have another number of bytes at the consumer than at
-- the producer: what the producer has put is what the consumer has got, followed by the bytes on the way and
-- those in the buffer. So the consumer has got the first so many of the producer's bytes, in order. When the
-- two types have the same number of bytes, there are bytes on the way only for a request that has been
-- answered, and then just the number that was asked for.
pub pipe_in_order :
    (made took : ℕ) (block : List ℕ) (size : ℕ) {q : Mc121} {l : Line} {put got : List ℕ}
    → length block ≡ size
    → 0 < size
    → size < 2 ^ 64
    → mc121_create true (some block) size ≡ some q
    → Run made took (fresh q) put got l
    → (put ≡ got ++ (l.unread ++ contents l.q))
      × (made ≡ took → length l.unread ≡ awaited made l.phase)
pipe_in_order made took block size {q} {l} {put} {got} e h b created r =
    let (i, empty) = fresh-Inv made took block size e h b created in
    let (j, moved) = run_lem made took size r i in
    (ap (λ s. s ++ put) (sym empty) ∙ moved, j.on_way)
