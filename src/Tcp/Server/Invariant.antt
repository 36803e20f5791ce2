-- ===== src/Tcp/Server/Invariant.antt =====
-- What holds of a server between any two steps, and the calls of a connection that keep it so.
use trantor_net.Base.{
  arith, contains, without, contains-without_self, contains-without_other, contains-without_still,
  contains-append, ==_iff, ℕ, ◌<◌, ◌≡◌, ◌≢◌, refl, sym, ◌∙◌, ap, Bool, true, false, Option, some,
  List, [], ◌∷◌, ◌==◌, Bool-cases, Option-cases, subst, inl, inr,
}
use mathlib.Core.Bool.{true≢false}
use trantor_net.Net.Loop.{find}
use trantor_net.Net.Loop.Sync.{find-erase}
use trantor_net.Tcp.Connection.{
  Pending, full_close, Effect, wrote, sent, received, update_pipe, message, closed, half_closed,
  remove_pipe, register_pipe,
}
use trantor_net.Tcp.Server.{
  message_bound, close_bound, user_bound, Callback, Server, update, close_callback_in_main_loop,
  close_callback, react, react_all,
}

-- The map of the server holds the connection.
abbrev pub IsOwned : ℕ → Server → Type 0
IsOwned o s = find (s.connections o).connection_id s.tcp_connection_map ≡ some o

-- A close by force waits for the output.
abbrev pub is_full : Option Pending → Bool
is_full (some full_close) = true
is_full _ = false

pub record Inv (s : Server) : Type 0 where
  pub owned : (o : ℕ) → contains o s.registered ≡ true → (o < s.born) × IsOwned o s
  pub leaving :
      (o : ℕ) → contains o s.close_tasks ≡ true → (o < s.born) × (contains o s.registered ≡ false)
  pub ids :
      (o p : ℕ)
      → o < s.born
      → p < s.born
      → (s.connections o).connection_id ≡ (s.connections p).connection_id
      → o ≡ p
  pub calm : (o : ℕ) → is_full ((s.connections o).shutdown_write_callback) ≡ false

pub update_self : {A : Type 0} (o : ℕ) (v : A) (f : ℕ → A) → update o v f o ≡ v
unfolding update
update_self o v f = rw ((==_iff o o).1 refl) refl

pub update_off : {A : Type 0} (i j : ℕ) (v : A) (f : ℕ → A) → i ≢ j → update i v f j ≡ f j
unfolding update
update_off i j v f n = ground (arith, n)

-- What holds of the new object at its place, and of the others at theirs, holds of all.
pub update_all :
    {A : Type 0} (P : ℕ → A → Type 0) (i : ℕ) (v : A) (f : ℕ → A)
    → P i v
    → ((j : ℕ) → i ≢ j → P j (f j))
    → (j : ℕ) → P j (update i v f j)
unfolding update
update_all P i v f new old j = elim (Bool-cases (i == j)) [
  | inl e ↦ rw e (subst (λ (k : ℕ). P k v) ((==_iff i j).0 e) new)
  | inr e ↦ rw e (old j (λ z. absurd (true≢false (sym ((==_iff i j).1 z) ∙ e))))
]

-- The task that ends a connection, which no loop holds any more.
pub in_main_loop-Inv :
    (o : ℕ) (s : Server)
    → o < s.born
    → contains o s.registered ≡ false
    → Inv s
    → Inv (close_callback_in_main_loop o s)
unfolding close_callback_in_main_loop
in_main_loop-Inv o s young gone v = record {
  owned = λ p h.
      let (p_young, own) = v.owned p h in
      let other : ((s.connections o).connection_id == (s.connections p).connection_id) ≡ false =
        elim (Bool-cases ((s.connections o).connection_id == (s.connections p).connection_id)) [
          | inl e ↦ absurd (
              true≢false (
                sym h
                ∙ ap (λ (j : ℕ). contains j s.registered)
                    (sym (v.ids o p young p_young ((==_iff _ _).0 e)))
                ∙ gone))
          | inr e ↦ e
        ] in
      (p_young, find-erase _ _ s.tcp_connection_map ∙ (rw (other, own) refl));
  leaving = v.leaving;
  ids = v.ids;
  calm = v.calm;
}

close_callback-Inv :
    (o : ℕ) (s : Server)
    → o < s.born
    → contains o s.registered ≡ false
    → Inv s
    → Inv (close_callback o s)
unfolding close_callback
close_callback-Inv o s young gone v = elim (Option-cases (s.homes o)) [
  | inl e ↦ rw (e, close_callback) (in_main_loop-Inv o s young gone v)
  | inr (h, e) ↦
      rw (e, close_callback)
        (record {
          owned = v.owned;
          leaving = λ p t. elim (contains-append p o s.close_tasks t) [
            | inl q ↦ v.leaving p q
            | inr q ↦
                subst (λ (j : ℕ). (j < s.born) × (contains j s.registered ≡ false)) q (young, gone)
          ];
          ids = v.ids;
          calm = v.calm;
        })
]

remove-Inv : (o : ℕ) (s : Server) → Inv s → Inv (record s { registered = without o s.registered })
remove-Inv o s v = record {
  owned = λ p h. v.owned p (contains-without_other o p s.registered h);
  leaving = λ p h.
      let (young, gone) = v.leaving p h in (young, contains-without_still o p s.registered gone);
  ids = v.ids;
  calm = v.calm;
}

-- Calls that can follow each other in one event of a connection: the server hears of a close only
-- behind the removal of the pipe, and no pipe is registered.
unfoldable pub IsOrderly : List (Effect Callback) → Type 0
IsOrderly [] = Unit
IsOrderly (register_pipe ∷ es) = ⊥
IsOrderly (closed _ ∷ es) = es ≡ remove_pipe ∷ []
IsOrderly (_ ∷ es) = IsOrderly es

pub react_all-Inv :
    (o : ℕ) (es : List (Effect Callback)) (s : Server)
    → o < s.born
    → IsOrderly es
    → Inv s
    → Inv (react_all o es s)
unfolding react_all react IsOrderly
react_all-Inv o [] s young ok v = v
react_all-Inv o (register_pipe ∷ es) s young ok v = absurd ok
react_all-Inv o (closed message_bound ∷ es) s young ok v =
    subst (λ es. Inv (react_all o es s)) (sym ok) (remove-Inv o s v)
react_all-Inv o (closed user_bound ∷ es) s young ok v =
    subst (λ es. Inv (react_all o es s)) (sym ok) (remove-Inv o s v)
react_all-Inv o (closed close_bound ∷ es) s young ok v =
    subst (λ es. Inv (react_all o (closed close_bound ∷ es) s)) (sym ok)
      (close_callback-Inv o _ young (contains-without_self o s.registered) (remove-Inv o s v))
react_all-Inv o (remove_pipe ∷ es) s young ok v = remove-Inv o _ (react_all-Inv o es s young ok v)
react_all-Inv o (message u ∷ es) s young ok v =
    let w = react_all-Inv o es s young ok v in
    record { owned = w.owned; leaving = w.leaving; ids = w.ids; calm = w.calm }
react_all-Inv o (wrote _ ∷ es) s young ok v = react_all-Inv o es s young ok v
react_all-Inv o (sent _ ∷ es) s young ok v = react_all-Inv o es s young ok v
react_all-Inv o (received _ ∷ es) s young ok v = react_all-Inv o es s young ok v
react_all-Inv o (update_pipe ∷ es) s young ok v = react_all-Inv o es s young ok v
react_all-Inv o (half_closed ∷ es) s young ok v = react_all-Inv o es s young ok v
