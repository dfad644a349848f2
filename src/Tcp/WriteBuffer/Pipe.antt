-- ===== src/Tcp/WriteBuffer/Pipe.antt =====
-- `VWrite` and `SenderThread` side by side: every interleaving of their steps over one call.
use ip_tcp.Base.{
  ℕ, ◌+◌, ◌%◌, ◌≤◌, ◌<◌, ◌≡◌, ◌≢◌, refl, sym, ap, ap₂, ◌∙◌, Bool, true, false, List, [], ◌++◌,
  Option, none, some, some_inj, arith, length, length-append, drop, drop-append, append_assoc,
  append-nil, add32,
}
use ip_tcp.Tcp.Ring.{window_size, read_ring}
use ip_tcp.Tcp.Ring.Read.{length-read_ring, drop-read_ring, read_ring-congr}
use ip_tcp.Tcp.WriteBuffer.{WriteBuffer, max_chunk, write_round, amount_to_send, sender_payload}
use ip_tcp.Tcp.WriteBuffer.Unsent.{IsValid, unsent, sender_payload-unsent}
use ip_tcp.Tcp.WriteBuffer.Round.{write_round-unsent}

-- A call of `VWrite` on its way: the buffer, whether the next round is the first, the rest of the
-- message, the value that waits in `writeChan` (which has no buffer), the payload that
-- `SenderThread` is busy with, and what it has sent.
pub record Pipe : Type 0 where
  pub wb : WriteBuffer
  pub first : Bool
  pub rest : List ℕ
  pub offer : Option ℕ
  pub sending : Option (List ℕ)
  pub sent : List ℕ

abbrev after_round : Pipe → Pipe
after_round p =
    let (w, rest) = write_round p.wb p.first p.rest in
    record p { wb = w; first = false; rest = rest; offer = some w.lbw }

abbrev after_sending : Pipe → List ℕ → Pipe
after_sending p q =
    let moved = add32 p.wb.nxt (length q) % window_size in
    record p { wb = record p.wb { una = moved; nxt = moved }; sending = none; sent = p.sent ++ q }

-- `write` is a round of the loop up to its send on `writeChan`; it starts once the value before was
-- taken. `take` is the receive in `SenderThread`, when `slidingWindow` is through. While that runs
-- `UNA` may take any values (`progress`). It returns when all of its payload is acknowledged
-- (`finish`); `NXT`, which `VWrite` does not read, is moved there.
pub data Step : Pipe → Pipe → Type 0 where
  write : (p : Pipe) → p.rest ≢ [] → p.offer ≡ none → Step p (after_round p)
  take :
      (p : Pipe) (lbw : ℕ) (q : List ℕ)
      → p.offer ≡ some lbw
      → p.sending ≡ none
      → sender_payload p.wb lbw ≡ some q
      → Step p (record p { offer = none; sending = some q })
  progress :
      (p : Pipe) (q : List ℕ) (una : ℕ)
      → p.sending ≡ some q
      → una < window_size
      → Step p (record p { wb = record p.wb { una = una } })
  finish : (p : Pipe) (q : List ℕ) → p.sending ≡ some q → Step p (after_sending p q)

pub data Reach (p : Pipe) : Pipe → Type 0 where
  here : Reach p p
  next : {q r : Pipe} → Reach p q → Step q r → Reach p r

abbrev in_flight : Option (List ℕ) → List ℕ
in_flight none = []
in_flight (some q) = q

-- With no value offered, nothing waits behind the bytes in flight; one that is offered is `LBW`.
abbrev Offered : Option ℕ → WriteBuffer → List ℕ → Type 0
Offered none w tail = tail ≡ []
Offered (some lbw) w tail = lbw ≡ w.lbw

record Inv (message : List ℕ) (p : Pipe) : Type 0 where
  valid : IsValid p.wb
  idle : p.sending ≡ none → p.wb.una ≡ p.wb.nxt
  bytes : p.sent ++ (unsent p.wb ++ p.rest) ≡ message
  tail : List ℕ
  split : unsent p.wb ≡ in_flight p.sending ++ tail
  flight_small : length (in_flight p.sending) ≤ max_chunk
  tail_small : length tail ≤ max_chunk
  offered : Offered p.offer p.wb tail

Offered-none :
    (o : Option ℕ) (w : WriteBuffer) (tail : List ℕ) → Offered o w tail → o ≡ none → tail ≡ []
Offered-none none w tail h e = h
Offered-none (some l) w tail h e = cc

Offered-some :
    (o : Option ℕ) (w : WriteBuffer) (tail : List ℕ) {l : ℕ}
    → Offered o w tail
    → o ≡ some l
    → l ≡ w.lbw
Offered-some none w tail h e = cc
Offered-some (some l) w tail h e = cc

Offered-lbw :
    (o : Option ℕ) (w w' : WriteBuffer) (tail : List ℕ)
    → w.lbw ≡ w'.lbw
    → Offered o w tail
    → Offered o w' tail
Offered-lbw none w w' tail e h = h
Offered-lbw (some l) w w' tail e h = h ∙ e

write-Inv :
    {message : List ℕ} (p : Pipe) → p.offer ≡ none → Inv message p → Inv message (after_round p)
write-Inv p e i =
    let none_behind = Offered-none p.offer p.wb i.tail i.offered e in
    let flight =
      i.split ∙ ap (λ t. in_flight p.sending ++ t) none_behind ∙ append-nil (in_flight p.sending) in
    let (chunk, split, grown, small, una_kept, nxt_kept, valid) =
      write_round-unsent p.wb p.first p.rest i.valid
        (omega (arith, ap (λ (t : List ℕ). length t) flight, i.flight_small)) in
    record {
      valid = valid;
      idle = λ s. una_kept ∙ i.idle s ∙ sym nxt_kept;
      bytes =
          ap (λ t. p.sent ++ (t ++ rest')) grown
          ∙ ap (λ t. p.sent ++ t)
              (append_assoc (unsent p.wb) chunk rest' ∙ ap (λ t. unsent p.wb ++ t) (sym split))
          ∙ i.bytes;
      tail = chunk;
      split = grown ∙ ap (λ t. t ++ chunk) flight;
      flight_small = i.flight_small;
      tail_small = small;
      offered = refl;
    }
  where
    rest' : List ℕ
    rest' = (write_round p.wb p.first p.rest).1

take-Inv :
    {message : List ℕ} (p : Pipe) (lbw : ℕ) (q : List ℕ)
    → p.offer ≡ some lbw
    → p.sending ≡ none
    → sender_payload p.wb lbw ≡ some q
    → Inv message p
    → Inv message (record p { offer = none; sending = some q })
take-Inv p lbw q o s e i =
    let current = Offered-some p.offer p.wb i.tail i.offered o in
    let taken : unsent p.wb ≡ q = some_inj (
      sym (sender_payload-unsent p.wb i.valid (i.idle s))
      ∙ ap (sender_payload p.wb) (sym current)
      ∙ e) in
    let waiting : unsent p.wb ≡ i.tail = i.split ∙ ap (λ t. in_flight t ++ i.tail) s in
    record {
      valid = i.valid;
      idle = λ h. cc;
      bytes = i.bytes;
      tail = [];
      split = taken ∙ sym (append-nil q);
      flight_small =
          omega (arith, ap (λ (t : List ℕ). length t) (sym taken ∙ waiting), i.tail_small);
      tail_small = omega arith;
      offered = refl;
    }

progress-Inv :
    {message : List ℕ} (p : Pipe) (q : List ℕ) (una : ℕ)
    → p.sending ≡ some q
    → una < window_size
    → Inv message p
    → Inv message (record p { wb = record p.wb { una = una } })
progress-Inv p q una s h i = record {
  valid = record { una_in = h; nxt_in = i.valid.nxt_in; lbw_in = i.valid.lbw_in };
  idle = λ e. cc;
  bytes = i.bytes;
  tail = i.tail;
  split = i.split;
  flight_small = i.flight_small;
  tail_small = i.tail_small;
  offered = Offered-lbw p.offer p.wb _ i.tail refl i.offered;
}

-- Moving `NXT` over the bytes in flight leaves those behind them unsent.
unsent-moved :
    (w : WriteBuffer) (q tail : List ℕ)
    → IsValid w
    → unsent w ≡ q ++ tail
    → let moved = add32 w.nxt (length q) % window_size in
      unsent (record w { una = moved; nxt = moved }) ≡ tail
unsent-moved w q tail v e =
    read_ring-congr w.buffer moved (w.nxt + length q) _ (omega arith)
    ∙ ap (read_ring w.buffer (w.nxt + length q)) (omega (arith, counted))
    ∙ sym (drop-read_ring w.buffer (length q) w.nxt (amount_to_send w w.lbw))
    ∙ ap (drop (length q)) e
    ∙ drop-append q tail
  where
    moved : ℕ
    moved = add32 w.nxt (length q) % window_size

    counted : amount_to_send w w.lbw ≡ length q + length tail
    counted =
        sym (length-read_ring w.buffer w.nxt (amount_to_send w w.lbw))
        ∙ ap (λ (t : List ℕ). length t) e
        ∙ length-append q tail

finish-Inv :
    {message : List ℕ} (p : Pipe) (q : List ℕ)
    → p.sending ≡ some q
    → Inv message p
    → Inv message (after_sending p q)
finish-Inv p q s i =
    let parts : unsent p.wb ≡ q ++ i.tail = i.split ∙ ap (λ t. in_flight t ++ i.tail) s in
    let left = unsent-moved p.wb q i.tail i.valid parts in
    record {
      valid = record { una_in = omega arith; nxt_in = omega arith; lbw_in = i.valid.lbw_in };
      idle = λ h. refl;
      bytes =
          append_assoc p.sent q _
          ∙ ap (λ t. p.sent ++ (q ++ (t ++ p.rest))) left
          ∙ ap (λ t. p.sent ++ t)
              (sym (append_assoc q i.tail p.rest) ∙ ap (λ t. t ++ p.rest) (sym parts))
          ∙ i.bytes;
      tail = i.tail;
      split = left;
      flight_small = omega arith;
      tail_small = i.tail_small;
      offered = Offered-lbw p.offer p.wb _ i.tail refl i.offered;
    }

Step-Inv : {message : List ℕ} {p q : Pipe} → Step p q → Inv message p → Inv message q
Step-Inv (write p m e) i = write-Inv p e i
Step-Inv (take p lbw q o s e) i = take-Inv p lbw q o s e i
Step-Inv (progress p q una s h) i = progress-Inv p q una s h i
Step-Inv (finish p q s) i = finish-Inv p q s i

Reach-Inv : {message : List ℕ} {p q : Pipe} → Inv message p → Reach p q → Inv message q
Reach-Inv i here = i
Reach-Inv i (next r s) = Step-Inv s (Reach-Inv i r)

-- `VWrite` called on a socket with everything sent and acknowledged.
abbrev pub calling : WriteBuffer → List ℕ → Pipe
calling w message = record {
  wb = w;
  first = true;
  rest = message;
  offer = none;
  sending = none;
  sent = [];
}

calling-Inv :
    (w : WriteBuffer) (message : List ℕ)
    → IsValid w
    → w.una ≡ w.nxt
    → unsent w ≡ []
    → Inv message (calling w message)
calling-Inv w message v e u = record {
  valid = v;
  idle = λ h. e;
  bytes = ap (λ t. t ++ message) u;
  tail = [];
  split = u;
  flight_small = omega arith;
  tail_small = omega arith;
  offered = refl;
}

-- In every interleaving of the rounds of `VWrite` with the sender, what was sent, then what is
-- written and not sent, then the rest of the message, make up the message; and when nothing is left,
-- offered or in flight, what was sent is the message.
pub Reach-message :
    (w : WriteBuffer) (message : List ℕ) {p : Pipe}
    → IsValid w
    → w.una ≡ w.nxt
    → unsent w ≡ []
    → Reach (calling w message) p
    → (p.sent ++ (unsent p.wb ++ p.rest) ≡ message)
      × (p.rest ≡ [] → p.offer ≡ none → p.sending ≡ none → p.sent ≡ message)
Reach-message w message {p} v e u r =
    let i = Reach-Inv (calling-Inv w message v e u) r in
    (
      i.bytes,
      λ no_rest no_offer no_flight.
          let none_left : unsent p.wb ≡ [] =
            i.split
            ∙ ap₂ (λ a b. in_flight a ++ b) no_flight
                (Offered-none p.offer p.wb i.tail i.offered no_offer) in
          sym (append-nil p.sent)
          ∙ ap₂ (λ (a b : List ℕ). p.sent ++ (a ++ b)) (sym none_left) (sym no_rest)
          ∙ i.bytes,
    )
