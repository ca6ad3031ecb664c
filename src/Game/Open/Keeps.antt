-- ===== src/Game/Open/Keeps.antt =====
-- What is done without a loss of the open rooms, by the parts that it is made of.
use fear_online_server.Prelude.{
  ℕ, String, ◌≡◌, sym, subst, Bool, true, false, if◌then◌else◌, List, [], ◌∷◌, Option, none, some,
}
use fear_online_server.Prelude.NatMap.{value_at}
use fear_online_server.Models.Player.{Player}
use fear_online_server.Repositories.Exec.{Exec, Result, ok, err}
use fear_online_server.Wire.Cipher.{BlockCipher}
use fear_online_server.Wire.Rmi.{Message}
use fear_online_server.Server.{Session, send_plain, send_encrypted}
use fear_online_server.Game.{
  World, Places, Env, Act, pure, fail, then_act, ◌>>=◌, gets, modify, attempt, given, each_of,
  change_places, sent_by, send_to, send, enciphered, send_secret, keep_player, serve, unless_error,
  unless_none, read_clock, account_of, room_at, sessions_of,
}
use fear_online_server.Game.Open.Seats.{IsOpen}

module _ {S : Type 0} where
  -- Whatever the outcome, the numbers of the open rooms lead to manned rooms if they did before.
  pub record Keeps {A : Type 0} (m : Act S A) : Type 0 where
    pub kept : (w : World S) → IsOpen w.places → IsOpen (m w).1.places

  pub pure-Keeps : {A : Type 0} (a : A) → Keeps (pure a)
  pure-Keeps a = record { kept = λ w o. o }

  pub fail-Keeps : {A : Type 0} → Keeps (fail {A = A})
  fail-Keeps = record { kept = λ w o. o }

  then_act-Keeps :
      {A B : Type 0} (r : Option A) (w : World S) (f : A → Act S B)
      → ((a : A) → Keeps (f a))
      → IsOpen w.places
      → IsOpen (then_act r f w).1.places
  then_act-Keeps none w f h o = o
  then_act-Keeps (some a) w f h o = (h a).kept w o

  pub then-Keeps :
      {A B : Type 0} {m : Act S A} {f : A → Act S B}
      → Keeps m
      → ((a : A) → Keeps (f a))
      → Keeps (m >>= f)
  then-Keeps {m} {f} h k = record { kept = λ w o. then_act-Keeps (m w).0 (m w).1 f k (h.kept w o) }

  pub gets-Keeps : {A : Type 0} (f : World S → A) → Keeps (gets f)
  gets-Keeps f = record { kept = λ w o. o }

  pub account_of-Keeps : (x : ℕ) → Keeps (account_of x)
  account_of-Keeps x = record { kept = λ w o. o }

  pub room_at-Keeps : (h : ℕ) → Keeps (room_at h)
  room_at-Keeps h = record { kept = λ w o. o }

  pub sessions_of-Keeps : (steam_id : String) → Keeps (sessions_of steam_id)
  sessions_of-Keeps steam_id = record { kept = λ w o. o }

  pub modify-Keeps :
      (f : World S → World S)
      → ((w : World S) → (f w).places ≡ w.places)
      → Keeps {A = Unit {0}} (modify f)
  modify-Keeps f h = record { kept = λ w o. subst IsOpen (sym (h w)) o }

  pub change_places-Keeps :
      (f : Places → Places)
      → ((p : Places) → IsOpen p → IsOpen (f p))
      → Keeps {A = Unit {0}} (change_places f)
  change_places-Keeps f h = record { kept = λ w o. h w.places o }

  pub attempt-Keeps : {m : Act S (Unit {0})} → Keeps m → Keeps (attempt m)
  attempt-Keeps h = record { kept = λ w o. h.kept w o }

  pub given-Keeps : {A : Type 0} (r : Option A) → Keeps (given r)
  given-Keeps none = fail-Keeps
  given-Keeps (some a) = pure-Keeps a

  pub each_of-Keeps :
      {A : Type 0} (f : A → Act S (Unit {0})) (xs : List A)
      → ((a : A) → Keeps (f a))
      → Keeps (each_of f xs)
  each_of-Keeps f [] h = pure-Keeps tt
  each_of-Keeps f (x ∷ xs) h = then-Keeps (h x) (λ a. each_of-Keeps f xs h)

  pub unless_none-Keeps :
      {A : Type 0} (r : Option A) {m : Act S (Unit {0})} {f : A → Act S (Unit {0})}
      → Keeps m
      → ((a : A) → Keeps (f a))
      → Keeps (unless_none r m f)
  unless_none-Keeps none h k = h
  unless_none-Keeps (some a) h k = k a

  pub unless_error-Keeps :
      {A : Type 0} (r : Result A) {m : Act S (Unit {0})} {f : A → Act S (Unit {0})}
      → Keeps m
      → ((a : A) → Keeps (f a))
      → Keeps (unless_error r m f)
  unless_error-Keeps (err e) h k = h
  unless_error-Keeps (ok a) h k = k a

  pub if-Keeps :
      {A : Type 0} (b : Bool) {m n : Act S A} → Keeps m → Keeps n → Keeps (if b then m else n)
  if-Keeps true h k = h
  if-Keeps false h k = k

  sent-Keeps :
      (x : ℕ) (r : Bool × Session) (w : World S) → IsOpen w.places → IsOpen (sent_by x r w).1.places
  sent-Keeps x (true, s) w o = o
  sent-Keeps x (false, s) w o = o

  send_to-Keeps :
      (x : ℕ) (msg : Message) (found : Option Session) (w : World S)
      → IsOpen w.places
      → IsOpen (send_to x msg found w).1.places
  send_to-Keeps x msg none w o = o
  send_to-Keeps x msg (some s) w o = sent-Keeps x (send_plain msg s) w o

  pub send-Keeps : (x id : ℕ) (body : List ℕ) → Keeps (send x id body)
  unfolding send
  send-Keeps x id body = record {
    kept = λ w o. send_to-Keeps x (record { id = id; body = body }) (value_at x w.connections) w o;
  }

  enciphered-Keeps :
      (c : BlockCipher) (x : ℕ) (msg : Message) (found : Option Session) (w : World S)
      → IsOpen w.places
      → IsOpen (enciphered c x msg found w).1.places
  enciphered-Keeps c x msg none w o = o
  enciphered-Keeps c x msg (some s) w o = sent-Keeps x (send_encrypted c msg s) w o

  pub send_secret-Keeps :
      (c : BlockCipher) (x id : ℕ) (body : List ℕ) → Keeps (send_secret c x id body)
  unfolding send_secret
  send_secret-Keeps c x id body = record {
    kept = λ w o.
        enciphered-Keeps c x (record { id = id; body = body }) (value_at x w.connections) w o;
  }

  pub keep_player-Keeps : (x : ℕ) (p : Player) → Keeps {A = Unit {0}} (keep_player x p)
  keep_player-Keeps x p = record { kept = λ w o. o }

  pub serve-Keeps : {A : Type 0} (m : Exec S A) → Keeps (serve m)
  serve-Keeps m = record { kept = λ w o. o }

  pub read_clock-Keeps : (env : Env S) → Keeps (read_clock env)
  read_clock-Keeps env = record { kept = λ w o. o }

-- The parts of a handler, and how they are put together.
pub ruleset keeps = (
  pure-Keeps, fail-Keeps, then-Keeps, gets-Keeps, attempt-Keeps, given-Keeps, each_of-Keeps,
  unless_none-Keeps, unless_error-Keeps, if-Keeps, send-Keeps, send_secret-Keeps, keep_player-Keeps,
  serve-Keeps, read_clock-Keeps,
)
