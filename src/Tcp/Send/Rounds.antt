-- ===== src/Tcp/Send/Rounds.antt =====
-- A round of `slidingWindow` as steps.
use ip_tcp.Base.{
  ℕ, ◌≡◌, refl, sym, ap, ◌∙◌, subst, true, false, List, [], ◌∷◌, ◌++◌, Option, none, some, some_inj,
  All, Bool-cases, differ, inl, inr, ltb, ◌==◌, ==_iff, if◌then◌else◌,
}
use ip_tcp.Base.Table.{lookup, insert, nat_eq, lookup-insert_self, lookup-insert_ne}
use ip_tcp.Tcp.Segment.{TcpInfo, TcpPacket}
use ip_tcp.Tcp.Send.{Transfer, Part, goes_on, blocked, sending}
use ip_tcp.Tcp.Send.Acks.{
  times_seen, advance, first_seen, take_ack, take_acks, with_acks, round, unskip,
}
use ip_tcp.Tcp.Send.Steps.{Run, Reach, next, sends, acks}

-- Something waits for a number.
abbrev pub Awaits : Transfer → ℕ → Type 0
Awaits t n = (k : ℕ) × (lookup n t.sock.unacked_nums ≡ some k)

Awaits-insert :
    (t : Transfer) (n m : ℕ)
    → Awaits t n
    → (k : ℕ) × (lookup n (insert m 1 t.sock.unacked_nums) ≡ some k)
Awaits-insert t n m (k, l) = elim (Bool-cases (m == n)) [
  | inl e ↦ (
    1,
    ap (λ j. lookup j (insert m 1 t.sock.unacked_nums)) (sym ((==_iff m n).0 e))
        ∙ lookup-insert_self m 1 t.sock.unacked_nums,
  )
  | inr e ↦ (k, lookup-insert_ne m n 1 t.sock.unacked_nums (λ q. differ ((==_iff m n).1 q) e) ∙ l)
]

StillAwaits : ℕ → Option Transfer → Type 0
StillAwaits n none = Unit
StillAwaits n (some t) = Awaits t n

-- Taking an acknowledgement forgets no number.
take_ack-StillAwaits :
    (ack : TcpInfo) (t : Transfer) (n : ℕ) → Awaits t n → StillAwaits n (take_ack ack t)
unfolding StillAwaits take_ack advance
take_ack-StillAwaits ack t n a =
    elim t.unacked_locked
      as (λ b. StillAwaits n (
        if b
        then none
        else if times_seen t.sock ack.ack_num == 0
        then if ltb t.sock.cum_write_una ack.ack_num
          then some (advance ack.ack_num (first_seen ack t))
          else some (first_seen ack t)
        else some (record t { unacked_locked = true }))) [
          | true ↦ tt
          | false ↦
              elim (times_seen t.sock ack.ack_num == 0)
                as (λ b. StillAwaits n (
                  if b
                  then if ltb t.sock.cum_write_una ack.ack_num
                    then some (advance ack.ack_num (first_seen ack t))
                    else some (first_seen ack t)
                  else some (record t { unacked_locked = true }))) [
                    | true ↦
                        elim (ltb t.sock.cum_write_una ack.ack_num)
                          as (λ b. StillAwaits n (
                            if b
                            then some (advance ack.ack_num (first_seen ack t))
                            else some (first_seen ack t))) [
                              | true ↦ Awaits-insert t n ack.ack_num a
                              | false ↦ Awaits-insert t n ack.ack_num a
                            ]
                    | false ↦ a
                  ]
        ]

take_ack-Awaits :
    (ack : TcpInfo) (t : Transfer) {t' : Transfer} (infos : List TcpInfo)
    → take_ack ack t ≡ some t'
    → All (λ (r : TcpInfo). Awaits t r.ack_num) infos
    → All (λ (r : TcpInfo). Awaits t' r.ack_num) infos
unfolding StillAwaits
take_ack-Awaits ack t [] e a = tt
take_ack-Awaits ack t (r ∷ infos) e (k, a) = (
  subst (StillAwaits r.ack_num) e (take_ack-StillAwaits ack t r.ack_num k),
  take_ack-Awaits ack t infos e a,
)

take_acks-Reach :
    (infos : List TcpInfo) (q r : Run) {t : Transfer}
    → Reach q r
    → All (λ (ack : TcpInfo). Awaits r.transfer ack.ack_num) infos
    → take_acks infos r.transfer ≡ some t
    → Reach q (record r { transfer = t })
unfolding take_acks
take_acks-Reach [] q r reach a e =
    subst (λ t. Reach q (record r { transfer = t })) (some_inj e) reach
take_acks-Reach (ack ∷ infos) q r {t} reach ((k, l), a) e =
    elim (take_ack ack r.transfer)
        as (λ o.
          take_ack ack r.transfer ≡ o
          → elim o as (λ x. Option Transfer) [ none ↦ none | some t' ↦ take_acks infos t' ] ≡ some t
          → Reach q (record r { transfer = t })) [
            | none ↦ λ f g. absurd cc
            | some t' ↦ λ f g.
                take_acks-Reach infos q (record r { transfer = t' })
                  (next reach (acks r ack k t' l f)) (take_ack-Awaits ack r.transfer infos f a) g
          ]
      refl e

-- A round that goes on is a sequence of steps, if something waits for each number that it takes
-- once its segments are sent.
pub round-Reach :
    (infos : List TcpInfo) (q r : Run) {t t' : Transfer} {out : List TcpPacket}
    → Reach q r
    → sending r.transfer ≡ goes_on t out
    → All (λ (ack : TcpInfo). Awaits t ack.ack_num) infos
    → round infos r.transfer ≡ goes_on t' out
    → Reach q (record r { transfer = t'; sent = r.sent ++ out })
unfolding round
round-Reach infos q r {t} {t'} {out} reach s a e =
    elim (take_acks infos (unskip t))
        as (λ o.
          take_acks infos (unskip t) ≡ o
          → elim o as (λ x. Part) [ none ↦ blocked | some u ↦ goes_on u out ] ≡ goes_on t' out
          → Reach q (record r { transfer = t'; sent = r.sent ++ out })) [
            | none ↦ λ f g. absurd cc
            | some u ↦ λ f g.
                let same : u ≡ t' = cc in
                subst (λ x. Reach q (record r { transfer = x; sent = r.sent ++ out })) same
                  (take_acks-Reach infos q (record r { transfer = unskip t; sent = r.sent ++ out })
                    (next reach (sends r t out s)) a f)
          ]
      refl (ap (with_acks infos) (sym s) ∙ e)
