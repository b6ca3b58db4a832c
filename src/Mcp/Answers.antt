-- ===== src/Mcp/Answers.antt =====
-- mcp/client.go: no call gets two replies.
use agent_go.Prelude.{
  ℕ, suc, ◌≤◌, ◌≡◌, refl, sym, ◌∙◌, ap, subst, true, false, ◌&&◌, not, List, [], ◌∷◌, ◌++◌, map,
  arith, Bool-cases, inl, inr, All,
}
use agent_go.Text.{Text, decimal, decimal_inj, text_eq, text_eq_iff, trim_space, is_empty, is_blank}
use agent_go.Text.Table.{mem, remove, mem-remove_self, mem-append}
use agent_go.Mcp.Calls.{
  Client, Reply, failure, Response, begin_call, give_up, dispatch, fail_all, Step, called, gave_up,
  received, hung_up, Reach, stay, go, next_key,
}
use agent_go.Mcp.Keys.{
  AreDistinct, either_false, both_false, AreDistinct-remove, All-remove, All-between, All-mem,
  AreDistinct-between, AreDistinct-apart, remove-absent,
}

abbrev pub answered : Client → List Text
answered c = map (λ p. p.0) c.inbox

-- The keys that wait or were answered are distinct, and are numbers given before.
pub record IsAnswering (c : Client) : Type 0 where
  pub distinct : AreDistinct (c.pending ++ answered c)
  pub old :
      All (λ (k : Text). (n : ℕ) × (n ≤ c.next_id) × (k ≡ decimal n)) (c.pending ++ answered c)

-- A key that was given.
abbrev IsOld : ℕ → Text → Type 0
IsOld next k = (n : ℕ) × (n ≤ next) × (k ≡ decimal n)

All-IsOld : (m : ℕ) (ks : List Text) → All (IsOld m) ks → All (IsOld (suc m)) ks
All-IsOld m [] h = tt
All-IsOld m (k ∷ ks) h = let (n, le, e) = h.0 in ((n, omega arith, e), All-IsOld m ks h.1)

-- The next key is new.
mem-next_key : (m : ℕ) (ks : List Text) → All (IsOld m) ks → mem (decimal (suc m)) ks ≡ false
unfolding mem
mem-next_key m [] h = refl
mem-next_key m (k ∷ ks) h =
    let (n, le, e) = h.0 in
    both_false (text_eq k (decimal (suc m))) (mem (decimal (suc m)) ks)
      (elim (Bool-cases (text_eq k (decimal (suc m)))) [
        | inl d ↦
            let same : n ≡ suc m =
              decimal_inj n (suc m) (sym e ∙ (text_eq_iff k (decimal (suc m))).0 d) in
            absurd (omega arith)
        | inr d ↦ d
      ])
      (mem-next_key m ks h.1)

begin_call-IsAnswering : (c : Client) → IsAnswering c → IsAnswering (begin_call c)
unfolding begin_call
begin_call-IsAnswering c h =
    let key = next_key c in
    let rest = answered c in
    let new = mem-next_key c.next_id (c.pending ++ rest) h.old in
    let absent =
      (either_false (mem key c.pending) (mem key rest)
        (sym (mem-append key c.pending rest) ∙ new)).0 in
    rw (remove-absent key c.pending absent) (record {
      distinct = (new, h.distinct);
      old = ((suc c.next_id, omega arith, refl), All-IsOld c.next_id (c.pending ++ rest) h.old);
    })

give_up-IsAnswering : (key : Text) (c : Client) → IsAnswering c → IsAnswering (give_up key c)
unfolding give_up
give_up-IsAnswering key c h = record {
  distinct = AreDistinct-remove key c.pending (answered c) h.distinct;
  old = All-remove (IsOld c.next_id) key c.pending (answered c) h.old;
}

delivered-IsAnswering :
    (key : Text) (r : Reply) (c : Client)
    → mem key c.pending ≡ true
    → IsAnswering c
    → IsAnswering (record c { pending = remove key c.pending; inbox = (key, r) ∷ c.inbox })
delivered-IsAnswering key r c e h =
    let left = remove key c.pending in
    let rest = answered c in
    let new : mem key (left ++ rest) ≡ false =
      mem-append key left rest
      ∙ both_false (mem key left) (mem key rest) (mem-remove_self key c.pending)
          (AreDistinct-apart key c.pending rest h.distinct e) in
    record {
      distinct =
          AreDistinct-between key left rest new (AreDistinct-remove key c.pending rest h.distinct);
      old =
          All-between (IsOld c.next_id) key left rest
            (All-mem (IsOld c.next_id) key c.pending rest e h.old)
            (All-remove (IsOld c.next_id) key c.pending rest h.old);
    }

dispatch-IsAnswering : (r : Response) (c : Client) → IsAnswering c → IsAnswering (dispatch r c)
unfolding dispatch
dispatch-IsAnswering r c h = elim (Bool-cases (not (is_empty r.method) && is_blank r.id)) [
  | inl e ↦ rw e h
  | inr e ↦ elim (Bool-cases (mem (trim_space r.id) c.pending)) [
    | inl d ↦ rw e (rw d (delivered-IsAnswering (trim_space r.id) r.reply c d h))
    | inr d ↦ rw e (rw d h)
  ]
]

answered-failed :
    (e : Text) (ks : List Text) (inbox : List (Text × Reply))
    → map (λ (p : Text × Reply). p.0) (map (λ (key : Text). (key, failure e)) ks ++ inbox)
      ≡ ks ++ map (λ (p : Text × Reply). p.0) inbox
answered-failed e [] inbox = refl
answered-failed e (k ∷ ks) inbox = ap (λ (l : List Text). k ∷ l) (answered-failed e ks inbox)

fail_all-IsAnswering : (e : Text) (c : Client) → IsAnswering c → IsAnswering (fail_all e c)
unfolding fail_all
fail_all-IsAnswering e c h =
    let same = sym (answered-failed e c.pending c.inbox) in
    record {
      distinct = subst AreDistinct same h.distinct;
      old = subst (All (IsOld c.next_id)) same h.old;
    }

Step-IsAnswering : {c d : Client} → Step c d → IsAnswering c → IsAnswering d
Step-IsAnswering (called {c} e) h = subst IsAnswering (sym e) (begin_call-IsAnswering c h)
Step-IsAnswering (gave_up {c} key e) h = subst IsAnswering (sym e) (give_up-IsAnswering key c h)
Step-IsAnswering (received {c} r e) h = subst IsAnswering (sym e) (dispatch-IsAnswering r c h)
Step-IsAnswering (hung_up {c} x e) h = subst IsAnswering (sym e) (fail_all-IsAnswering x c h)

-- If in a client the keys of the calls that wait and of those that were answered are all distinct
-- and are numbers given before, then this is so after any interleaving of new calls, calls given
-- up, messages read and ends of the pipe: no call gets two replies.
pub Reach-IsAnswering : {c d : Client} → Reach c d → IsAnswering c → IsAnswering d
Reach-IsAnswering stay h = h
Reach-IsAnswering (go s r) h = Reach-IsAnswering r (Step-IsAnswering s h)
