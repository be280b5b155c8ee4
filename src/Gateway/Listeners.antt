-- ===== src/Gateway/Listeners.antt =====
-- `listeners` of s3ftpgateway.go: all the listeners of the configuration, or none.
use s3ftpgateway.Base.{
  ℕ, ◌≡◌, refl, sym, ap, subst, ◌∙◌, ◌⊎◌, inl, inr, Option, none, some, List, [], ◌∷◌, ◌++◌, map,
  append-nil, append_assoc, Bytes, Result, ok, err, arith, Result-cases,
}
use s3ftpgateway.Gateway.{ListenerConfig, Config, Listener, listen_address}

abbrev pub numbers : List Listener → List ℕ
numbers = map (λ (l : Listener). l.listener)

-- The listeners with the modes of their configurations.
abbrev pub with_modes : List ListenerConfig → List ℕ → List Listener
with_modes (c ∷ cs) (n ∷ ns) = record { listener = n; tls = c.tls } ∷ with_modes cs ns
with_modes _ _ = []

numbers-snoc :
    (ls : List Listener) (x : Listener) → numbers (ls ++ x ∷ []) ≡ numbers ls ++ x.listener ∷ []
numbers-snoc [] x = refl
numbers-snoc (l ∷ ls) x = ap (◌∷◌ l.listener) (numbers-snoc ls x)

module _ {E : Type 0} where
  abbrev pub opened_by : List (Result E ℕ) → List ℕ
  opened_by [] = []
  opened_by (err e ∷ rs) = opened_by rs
  opened_by (ok n ∷ rs) = n ∷ opened_by rs

  abbrev pub AllOk : List (Result E ℕ) → Type 0
  AllOk [] = Unit
  AllOk (ok n ∷ rs) = AllOk rs
  AllOk (err e ∷ rs) = ⊥

  abbrev pub HasError : E → List (Result E ℕ) → Type 0
  HasError e [] = ⊥
  HasError e (ok n ∷ rs) = HasError e rs
  HasError e (err x ∷ rs) = (e ≡ x) ⊎ HasError e rs

-- `listen` is `lc.Listen` for an address, with the listeners that were opened before.
module _ {E : Type 0} (listen : List ℕ → Bytes → Result E ℕ) where
  -- The loop, with `ls` and `lastErr`.
  unfoldable pub listen_loop :
      List ListenerConfig → List Listener → Option E → List Listener × Option E
  listen_loop [] ls last = (ls, last)
  listen_loop (c ∷ cs) ls last = elim (listen (numbers ls) (listen_address c)) [
    | err e ↦ listen_loop cs ls (some e)
    | ok n ↦ listen_loop cs (ls ++ record { listener = n; tls = c.tls } ∷ []) last
  ]

  -- Behind the loop: on an error every listener is closed.
  abbrev finish : List Listener × Option E → Result E (List Listener) × List ℕ
  finish (ls, some e) = (err e, numbers ls)
  finish (ls, none) = (ok ls, [])

  -- `listeners`, from the error of `listener.PortsFallback`, with the listeners that it closes.
  unfoldable pub listeners : Option E → Config → Result E (List Listener) × List ℕ
  listeners (some e) config = (err e, [])
  listeners none config = finish (listen_loop config.listeners [] none)

  -- What the calls of `Listen` answer, one after the other.
  abbrev pub answers : List ℕ → List ListenerConfig → List (Result E ℕ)
  answers opened [] = []
  answers opened (c ∷ cs) = elim (listen opened (listen_address c)) [
    | err e ↦ err e ∷ answers opened cs
    | ok n ↦ ok n ∷ answers (opened ++ n ∷ []) cs
  ]

  module _ (c : ListenerConfig) (cs : List ListenerConfig) where
    listen_loop-err :
        (ls : List Listener) (last : Option E) (e : E)
        → listen (numbers ls) (listen_address c) ≡ err e
        → listen_loop (c ∷ cs) ls last ≡ listen_loop cs ls (some e)
    unfolding listen_loop
    listen_loop-err ls last e fails = ground arith

    listen_loop-ok :
        (ls : List Listener) (last : Option E) (n : ℕ)
        → listen (numbers ls) (listen_address c) ≡ ok n
        → listen_loop (c ∷ cs) ls last
          ≡ listen_loop cs (ls ++ record { listener = n; tls = c.tls } ∷ []) last
    unfolding listen_loop
    listen_loop-ok ls last n opened = ground arith

    answers-err :
        (ns : List ℕ) (e : E)
        → listen ns (listen_address c) ≡ err e
        → answers ns (c ∷ cs) ≡ err e ∷ answers ns cs
    answers-err ns e fails = ground arith

    answers-ok :
        (ns : List ℕ) (n : ℕ)
        → listen ns (listen_address c) ≡ ok n
        → answers ns (c ∷ cs) ≡ ok n ∷ answers (ns ++ n ∷ []) cs
    answers-ok ns n opened = ground arith

  listen_loop-numbers :
      (cs : List ListenerConfig) (ls : List Listener) (last : Option E)
      → numbers (listen_loop cs ls last).0 ≡ numbers ls ++ opened_by (answers (numbers ls) cs)
  listen_loop-numbers [] ls last = unfold listen_loop in sym (append-nil (numbers ls))
  listen_loop-numbers (c ∷ cs) ls last =
      elim (Result-cases (listen (numbers ls) (listen_address c))) [
        | inr (e, fails) ↦
            rw (listen_loop-err c cs ls last e fails, answers-err c cs (numbers ls) e fails)
              (listen_loop-numbers cs ls (some e))
        | inl (n, opened) ↦
            let x : Listener = record { listener = n; tls = c.tls } in
            rw (listen_loop-ok c cs ls last n opened, answers-ok c cs (numbers ls) n opened)
              (listen_loop-numbers cs (ls ++ x ∷ []) last
                ∙ rw (numbers-snoc ls x) (append_assoc (numbers ls) (n ∷ []) _))
      ]

  -- Where no call fails, each configuration has its listener; else the last error is kept.
  abbrev Listened : List ListenerConfig → List Listener → Option E → List (Result E ℕ) → Type 0
  Listened cs ls last rs =
      (AllOk rs × (listen_loop cs ls last ≡ (ls ++ with_modes cs (opened_by rs), last)))
      ⊎ ((e : E) × HasError e rs × ((listen_loop cs ls last).1 ≡ some e))

  listen_loop-Listened :
      (cs : List ListenerConfig) (ls : List Listener) (last : Option E)
      → Listened cs ls last (answers (numbers ls) cs)
  listen_loop-Listened [] ls last =
      unfold listen_loop in inl (tt, ap (λ x. (x, last)) (sym (append-nil ls)))
  listen_loop-Listened (c ∷ cs) ls last =
      elim (Result-cases (listen (numbers ls) (listen_address c))) [
        | inr (e, fails) ↦
            rw (listen_loop-err c cs ls last e fails, answers-err c cs (numbers ls) e fails)
              (elim (listen_loop-Listened cs ls (some e)) [
                | inl (all, same) ↦
                    inr (e, inl refl, ap (λ (r : List Listener × Option E). r.1) same)
                | inr (x, has, kept) ↦ inr (x, inr has, kept)
              ])
        | inl (n, opened) ↦
            let x : Listener = record { listener = n; tls = c.tls } in
            let rest =
              subst (λ ns. Listened cs (ls ++ x ∷ []) last (answers ns cs)) (numbers-snoc ls x)
                (listen_loop-Listened cs (ls ++ x ∷ []) last) in
            rw (listen_loop-ok c cs ls last n opened, answers-ok c cs (numbers ls) n opened)
              (elim rest [
                | inl (all, same) ↦
                    inl (all, same ∙ ap (λ y. (y, last)) (append_assoc ls (x ∷ []) _))
                | inr (y, has, kept) ↦ inr (y, has, kept)
              ])
      ]

  finish-some :
      (r : List Listener × Option E) (e : E) → r.1 ≡ some e → finish r ≡ (err e, numbers r.0)
  finish-some (ls, some x) e h = ground arith
  finish-some (ls, none) e h = cc

  -- Where the listener package gives no error: if each call of Listen succeeds, listeners returns
  -- them all in the order of the configuration with their TLS modes and closes none; else it
  -- returns the error of one of the calls, and it closes every listener that was opened.
  pub listeners-all_or_none :
      (config : Config)
      → let rs = answers [] config.listeners in
        (AllOk rs × (listeners none config ≡ (ok (with_modes config.listeners (opened_by rs)), [])))
        ⊎ ((e : E) × HasError e rs × (listeners none config ≡ (err e, opened_by rs)))
  unfolding listeners
  listeners-all_or_none config = elim (listen_loop-Listened config.listeners [] none) [
    | inl (all, same) ↦ inl (all, ap finish same)
    | inr (e, has, kept) ↦ inr (
      e,
      has,
      finish-some (listen_loop config.listeners [] none) e kept
          ∙ ap (λ ns. (err e, ns)) (listen_loop-numbers config.listeners [] none),
    )
  ]
