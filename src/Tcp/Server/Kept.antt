-- ===== src/Tcp/Server/Kept.antt =====
-- What holds of the map of the server between any two steps, and what keeps it so.
use trantor_net.Base.{
  contains, without, ==_iff, ℕ, ◌<◌, ◌≡◌, ◌≢◌, ◌⊎◌, refl, sym, ◌∙◌, ap, subst, true, none, some,
  List, [], ◌∷◌, ◌++◌, ◌==◌, arith, Bool-cases, Option-cases, inl, inr,
}
use mathlib.Core.Bool.{true≢false}
use trantor_net.Net.Loop.{find, erase}
use trantor_net.Net.Loop.Sync.{is_some, find-erase}
use trantor_net.Tcp.Connection.{
  Effect, wrote, sent, received, update_pipe, message, closed, half_closed, remove_pipe,
  register_pipe, Connection,
}
use trantor_net.Tcp.Server.{
  close_bound, Callback, Server, close_callback_in_main_loop, close_callback, react, react_all,
  store,
}
use trantor_net.Tcp.Server.Invariant.{update_all}
use trantor_net.Tcp.Server.Tidy.{IsPlain, IsBrief}

-- A loop holds the pipe of the connection, or its close task waits.
abbrev pub IsLive : ℕ → Server → Type 0
IsLive o s = (contains o s.registered ≡ true) ⊎ (contains o s.close_tasks ≡ true)

pub record Kept (s : Server) : Type 0 where
  pub held :
      (k o : ℕ)
      → find k s.tcp_connection_map ≡ some o
      → (o < s.born) × ((s.connections o).connection_id ≡ k) × IsLive o s
  pub heard : (o : ℕ) → o < s.born → (s.connections o).closed_cb ≡ some close_bound

without_other_true :
    (o p : ℕ) (xs : List ℕ) → o ≢ p → contains p xs ≡ true → contains p (without o xs) ≡ true
unfolding contains without
without_other_true o p [] n h = h
without_other_true o p (x ∷ xs) n h = ground (arith, without_other_true o p xs n, n, h)

append_old : (p o : ℕ) (xs : List ℕ) → contains p xs ≡ true → contains p (xs ++ (o ∷ [])) ≡ true
unfolding contains
append_old p o [] h = absurd (true≢false (sym h))
append_old p o (x ∷ xs) h = ground (arith, append_old p o xs, h)

append_new : (o : ℕ) (xs : List ℕ) → contains o (xs ++ (o ∷ [])) ≡ true
unfolding contains
append_new o [] = ground arith
append_new o (x ∷ xs) = ground (arith, append_new o xs)

-- An entry that is left when the one of a connection is erased is another connection's.
pub erase_held :
    (o : ℕ) (s : Server)
    → Kept s
    → (k p : ℕ) → find k (erase (s.connections o).connection_id s.tcp_connection_map) ≡ some p
    → (o ≢ p) × (find k s.tcp_connection_map ≡ some p)
erase_held o s v k p e =
    let id = (s.connections o).connection_id in
    elim (Bool-cases (id == k)) [
      | inl z ↦
          let gone : find k (erase id s.tcp_connection_map) ≡ none =
            find-erase id k s.tcp_connection_map ∙ rw z refl in
          absurd (true≢false (ap is_some (sym e ∙ gone)))
      | inr z ↦
          let old : find k s.tcp_connection_map ≡ some p =
            sym (find-erase id k s.tcp_connection_map ∙ rw z refl) ∙ e in
          let same = (v.held k p old).1 in
          (
            λ q.
                true≢false
                  (sym ((==_iff id k).1 (ap (λ j. (s.connections j).connection_id) q ∙ same)) ∙ z),
            old,
          )
    ]

in_main_loop-Kept :
    (o : ℕ) (s : Server)
    → Kept s
    → Kept (close_callback_in_main_loop o (record s { registered = without o s.registered }))
unfolding close_callback_in_main_loop
in_main_loop-Kept o s v = record {
  held = λ k p e.
      let (n, old) = erase_held o s v k p e in
      let (y, same, live) = v.held k p old in
      (
        y,
        same,
        elim live [ inl r ↦ inl (without_other_true o p s.registered n r) | inr t ↦ inr t ],
      );
  heard = v.heard;
}

queued-Kept :
    (o : ℕ) (s : Server)
    → Kept s
    → Kept
        (record s { registered = without o s.registered; close_tasks = s.close_tasks ++ (o ∷ []) })
queued-Kept o s v = record {
  held = λ k p e.
      let (y, same, live) = v.held k p e in
      (
        y,
        same,
        elim (Bool-cases (o == p)) [
          | inl z ↦ inr (
              subst (λ j. contains j (s.close_tasks ++ (o ∷ [])) ≡ true) ((==_iff o p).0 z)
                (append_new o s.close_tasks))
          | inr z ↦ elim live [
            | inl r ↦ inl (
                without_other_true o p s.registered (λ q. true≢false (sym ((==_iff o p).1 q) ∙ z))
                  r)
            | inr t ↦ inr (append_old p o s.close_tasks t)
          ]
        ],
      );
  heard = v.heard;
}

closed-Kept :
    (o : ℕ) (s : Server)
    → Kept s
    → Kept (close_callback o (record s { registered = without o s.registered }))
unfolding close_callback
closed-Kept o s v = elim (Option-cases (s.homes o)) [
  | inl e ↦ rw (e, close_callback) (in_main_loop-Kept o s v)
  | inr (h, e) ↦ rw (e, close_callback) (queued-Kept o s v)
]

plain-Kept :
    (o : ℕ) (es : List (Effect Callback)) (s : Server)
    → IsPlain es
    → Kept s
    → Kept (react_all o es s)
unfolding react_all react IsPlain
plain-Kept o [] s p v = v
plain-Kept o (closed u ∷ es) s p v = absurd p
plain-Kept o (remove_pipe ∷ es) s p v = absurd p
plain-Kept o (register_pipe ∷ es) s p v = absurd p
plain-Kept o (message u ∷ es) s p v =
    let w = plain-Kept o es s p v in record { held = w.held; heard = w.heard }
plain-Kept o (wrote bytes ∷ es) s p v = plain-Kept o es s p v
plain-Kept o (sent bytes ∷ es) s p v = plain-Kept o es s p v
plain-Kept o (received bytes ∷ es) s p v = plain-Kept o es s p v
plain-Kept o (update_pipe ∷ es) s p v = plain-Kept o es s p v
plain-Kept o (half_closed ∷ es) s p v = plain-Kept o es s p v

pub brief-Kept :
    (o : ℕ) (es : List (Effect Callback)) (s : Server)
    → IsBrief es
    → Kept s
    → Kept (react_all o es s)
unfolding react_all react
brief-Kept o es s (inl p) v = plain-Kept o es s p v
brief-Kept o es s (inr e) v = subst (λ es. Kept (react_all o es s)) (sym e) (closed-Kept o s v)

pub store-Kept :
    (o : ℕ) (c : Connection Callback) (s : Server)
    → c.connection_id ≡ (s.connections o).connection_id
    → c.closed_cb ≡ some close_bound
    → Kept s
    → Kept (store o c s)
unfolding store
store-Kept o c s same heard v =
    let id_of =
      update_all (λ p (d : Connection Callback). d.connection_id ≡ (s.connections p).connection_id)
        o c s.connections same (λ p n. refl) in
    record {
      held = λ k p e. let (y, id, live) = v.held k p e in (y, id_of p ∙ id, live);
      heard =
          update_all (λ p (d : Connection Callback). p < s.born → d.closed_cb ≡ some close_bound) o
            c s.connections (λ _. heard) (λ p n. v.heard p);
    }
