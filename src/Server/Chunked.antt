-- ===== src/Server/Chunked.antt =====
-- What the server does depends on the stream, and not on how it is cut into chunks.
use mathlib.Core.List.{flatten}
use mathlib.Core.Path.{fun_ext}
use auto_test_poc.Base.{ℕ, ◌≡◌, ◌≢◌, refl, sym, ap, ◌∙◌, List, [], ◌∷◌, ◌++◌, All}
use auto_test_poc.Py.Exceptions.{Result, ok, err}
use auto_test_poc.Py.State.{◌>>◌, skip}
use auto_test_poc.Py.Text.{Text}
use auto_test_poc.Frames.{extract_messages, receive}
use auto_test_poc.Frames.Chunks.{receive-chunks}
use auto_test_poc.Server.{
  Config, Draw, Conn, Method, new_session, handle_raw, handle_all, client_loop, handle_client,
}

then_assoc : (m k l : Method) (c : Conn) → ((m >> k) >> l) c ≡ (m >> (k >> l)) c
then_assoc m k l c = go (m c)
  where
    go : (p : Result (Unit {0}) × Conn) → ((λ _. p) >> k >> l) c ≡ ((λ _. p) >> (k >> l)) c
    go (ok a, s) = refl
    go (err e, s) = refl

then_skip : (c : Conn) (p : Result (Unit {0}) × Conn) → ((λ _. p) >> skip) c ≡ p
then_skip c (ok a, s) = refl
then_skip c (err e, s) = refl

module _ (cfg : Config) (draws : ℕ → Draw) where
  handle_all-append :
      (xs ys : List Text) (c : Conn)
      → handle_all cfg draws (xs ++ ys) c ≡ (handle_all cfg draws xs >> handle_all cfg draws ys) c
  unfolding handle_all
  handle_all-append [] ys c = refl
  handle_all-append (x ∷ xs) ys c =
      ap (λ (k : Method). (handle_raw cfg draws x >> k) c) (fun_ext (handle_all-append xs ys))
      ∙ sym (
          then_assoc (handle_raw cfg draws x) (handle_all cfg draws xs) (handle_all cfg draws ys) c)

  client_loop-receive :
      (chunks : List Text) (b : Text) (before : List Text) (c : Conn)
      → (handle_all cfg draws before >> client_loop cfg draws chunks b) c
        ≡ handle_all cfg draws (receive chunks b before).0 c
  unfolding receive client_loop
  client_loop-receive [] b before c = then_skip c (handle_all cfg draws before c)
  client_loop-receive ([] ∷ chunks) b before c = then_skip c (handle_all cfg draws before c)
  client_loop-receive ((x ∷ s) ∷ chunks) b before c =
      let (msgs, rest) = extract_messages (b ++ x ∷ s) in
      sym (
        then_assoc (handle_all cfg draws before) (handle_all cfg draws msgs)
          (client_loop cfg draws chunks rest) c)
      ∙ ap (λ (m : Method). (m >> client_loop cfg draws chunks rest) c)
          (sym (fun_ext (handle_all-append before msgs)))
      ∙ client_loop-receive chunks rest (before ++ msgs) c

-- The final state of a connection is the same for any two ways to cut one stream into chunks that are
-- not empty: the session, the replies and their texts.
pub handle_client-chunks :
    (cfg : Config) (draws : ℕ → Draw) (xs ys : List Text)
    → All (λ s. s ≢ []) xs
    → All (λ s. s ≢ []) ys
    → flatten xs ≡ flatten ys
    → handle_client cfg draws xs ≡ handle_client cfg draws ys
unfolding handle_client
handle_client-chunks cfg draws xs ys hx hy same =
    ap (λ (p : Result (Unit {0}) × Conn). p.1)
      (whole xs hx
        ∙ ap (λ b. handle_all cfg draws (extract_messages b).0 start) same
        ∙ sym (whole ys hy))
  where
    start : Conn
    start = record { session = new_session cfg.comp_id; handled = 0; sent = [] }

    whole :
        (chunks : List Text)
        → All (λ s. s ≢ []) chunks
        → client_loop cfg draws chunks [] start
          ≡ handle_all cfg draws (extract_messages (flatten chunks)).0 start
    whole chunks full =
        unfold handle_all in
        client_loop-receive cfg draws chunks [] [] start
        ∙ ap (λ (p : List Text × Text). handle_all cfg draws p.0 start) (receive-chunks chunks full)
