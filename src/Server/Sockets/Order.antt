-- ===== src/Server/Sockets/Order.antt =====
-- src/server.rs: the order of the events of the websockets' clients.
use dse.Base.{
  ℕ, zero, suc, ◌+◌, ◌-◌, ◌%◌, ◌^◌, ◌<◌, ◌≤◌, ◌≡◌, refl, Bool, true, false, List, [], ◌∷◌, ◌++◌,
  Option, none, some, Result, ok, err, panic, ◌==◌, if◌then◌else◌, arith, length, subst, ap, sym,
  ◌∙◌,
}
use dse.Base.Bytes.{Bytes}
use dse.Storage.{client_id_counter}
use dse.Server.Sockets.{
  ServerEvent, new_ws_client, new_ws_message, received_message, Connection, Turn, upgrade, proceed,
  on_socket, proceed_at, ws_connection_established,
}

-- What a reader of the events makes of them for one client id: whether the client is known, or
-- nothing, if it is announced twice or heard before its announcement.
abbrev pub hear : ℕ → Bool → ServerEvent → Option Bool
hear j known (new_ws_client id) =
    if id == j then (if known then none else some true) else some known
hear j known (new_ws_message id m) =
    if id == j then (if known then some known else none) else some known
hear j known (received_message m) = some known

unfoldable pub follow : ℕ → Option Bool → List ServerEvent → Option Bool
follow j known [] = known
follow j none (ev ∷ events) = none
follow j (some known) (ev ∷ events) = follow j (hear j known ev) events

abbrev pub upgrades : List Turn → ℕ
upgrades [] = 0
upgrades (upgrade ∷ turns) = suc (upgrades turns)
upgrades (proceed i out ∷ turns) = upgrades turns

abbrev is_announced : ℕ → List Connection → Bool
is_announced j [] = false
is_announced j ((id, b) ∷ cs) = if id == j then b else is_announced j cs

-- The ids of the connections count down to the first one.
abbrev CountsDown : ℕ → List Connection → Type 0
CountsDown n [] = n ≡ client_id_counter
CountsDown n ((id, b) ∷ cs) = (n ≡ suc id) × CountsDown id cs

follow-append :
    (j : ℕ) (known : Option Bool) (xs ys : List ServerEvent)
    → follow j known (xs ++ ys) ≡ follow j (follow j known xs) ys
unfolding follow
follow-append j known [] ys = refl
follow-append j none (x ∷ xs) [] = refl
follow-append j none (x ∷ xs) (y ∷ ys) = refl
follow-append j (some known) (x ∷ xs) ys = follow-append j (hear j known x) xs ys

proceed_at-CountsDown :
    (n i : ℕ) (out : Option (Result Bytes)) (cs : List Connection)
    → CountsDown n cs
    → CountsDown n (proceed_at i out cs).0
unfolding proceed_at
proceed_at-CountsDown n i out [] h = h
proceed_at-CountsDown n zero out ((id, false) ∷ cs) h = h
proceed_at-CountsDown n zero out ((id, true) ∷ cs) h = h
proceed_at-CountsDown n (suc i) out ((id, b) ∷ cs) (p, h) = (p, proceed_at-CountsDown id i out cs h)

follow-on_socket :
    (j id : ℕ) (out : Option (Result Bytes)) (known : Bool)
    → (id == j) ≡ false
    → follow j (some known) (on_socket id out) ≡ some known
unfolding follow on_socket
follow-on_socket j id (some (ok m)) known h = ground arith
follow-on_socket j id (some _) known h = refl
follow-on_socket j id none known h = refl

-- A turn of the connections says nothing of an id that none of them has.
follow_others :
    (j n i : ℕ) (out : Option (Result Bytes)) (cs : List Connection) (known : Bool)
    → CountsDown n cs
    → n ≤ j
    → follow j (some known) (proceed_at i out cs).1 ≡ some known
unfolding follow proceed_at
follow_others j n i out [] known h le = refl
follow_others j n zero out ((id, false) ∷ cs) known (p, h) le = ground arith
follow_others j n zero out ((id, true) ∷ cs) known (p, h) le =
    follow-on_socket j id out known (ground arith)
follow_others j n (suc i) out ((id, b) ∷ cs) known (p, h) le =
    follow_others j id i out cs known h (omega arith)

follow-proceed_at :
    (j n i : ℕ) (out : Option (Result Bytes)) (cs : List Connection)
    → CountsDown n cs
    → follow j (some (is_announced j cs)) (proceed_at i out cs).1
      ≡ some (is_announced j (proceed_at i out cs).0)
unfolding follow proceed_at on_socket
follow-proceed_at j n i out [] h = refl
follow-proceed_at j n zero out ((id, false) ∷ cs) h = ground arith
follow-proceed_at j n zero (some (ok m)) ((id, true) ∷ cs) h = ground arith
follow-proceed_at j n zero (some (err x)) ((id, true) ∷ cs) h = refl
follow-proceed_at j n zero (some panic) ((id, true) ∷ cs) h = refl
follow-proceed_at j n zero none ((id, true) ∷ cs) h = refl
follow-proceed_at j n (suc i) out ((id, b) ∷ cs) (p, h) =
    ground (arith, follow_others j id i out cs b h, follow-proceed_at j id i out cs h)

is_announced-CountsDown :
    (n j : ℕ) (cs : List Connection) → CountsDown n cs → n ≤ j → is_announced j cs ≡ false
is_announced-CountsDown n j [] h le = refl
is_announced-CountsDown n j ((id, b) ∷ cs) (p, h) le =
    ground (arith, is_announced-CountsDown id j cs h (omega arith))

-- What a run that leaves some connections and events did, for one client id: the events are in
-- order for it, and each upgrade left a connection.
abbrev AreFollowed : ℕ → Bool → ℕ → List Connection × List ServerEvent → Type 0
AreFollowed j known n (cs, events) =
    (follow j (some known) events ≡ some (is_announced j cs)) × CountsDown n cs

follow-ws_connection_established :
    (j n : ℕ) (cs : List Connection) (turns : List Turn)
    → CountsDown n cs
    → n + upgrades turns < 2 ^ 64
    → AreFollowed j (is_announced j cs) (n + upgrades turns) (ws_connection_established n cs turns)
unfolding ws_connection_established follow
follow-ws_connection_established j n cs [] h le =
    (refl, subst (λ m. CountsDown m cs) (omega arith) h)
follow-ws_connection_established j n cs (upgrade ∷ turns) h le =
    let from : ℕ → List Connection × List ServerEvent =
      λ m. ws_connection_established m ((n, false) ∷ cs) turns in
    let next : (n + 1) % 2 ^ 64 ≡ suc n = omega arith in
    let unseen : (if n == j then false else is_announced j cs) ≡ is_announced j cs =
      ground (arith, is_announced-CountsDown n j cs h) in
    let after =
      follow-ws_connection_established j (suc n) ((n, false) ∷ cs) turns (refl, h) (omega arith) in
    let moved : suc n + upgrades turns ≡ n + suc (upgrades turns) = omega arith in
    subst (λ m. AreFollowed j (is_announced j cs) (n + suc (upgrades turns)) (from m)) (sym next)
      (subst (λ m. AreFollowed j (is_announced j cs) m (from (suc n))) moved
        (subst (λ b. AreFollowed j b (suc n + upgrades turns) (from (suc n))) unseen after))
follow-ws_connection_established j n cs (proceed i out ∷ turns) h le =
    let cs' = (proceed_at i out cs).0 in
    let now = (proceed_at i out cs).1 in
    let later = (ws_connection_established n cs' turns).1 in
    let (p, q) =
      follow-ws_connection_established j n cs' turns (proceed_at-CountsDown n i out cs h) le in
    (
      follow-append j (some (is_announced j cs)) now later
          ∙ (ap (λ known. follow j known later) (follow-proceed_at j n i out cs h) ∙ p),
      q,
    )

length-CountsDown :
    (n : ℕ) (cs : List Connection) → CountsDown n cs → length cs + client_id_counter ≡ n
length-CountsDown n [] h = omega (arith, h)
length-CountsDown n ((id, b) ∷ cs) (p, h) = omega (arith, length-CountsDown id cs h)

-- While fewer than 2^64 - 1 connections have been upgraded since the start, in every order of the
-- connections' tasks each client id is announced at most once, and no message is attributed to an id
-- that was not announced before it. No connection ever leaves, whatever its socket yields.
pub ws_connection_established_lem :
    (turns : List Turn) (j : ℕ)
    → upgrades turns < 2 ^ 64 - 1
    → let (cs, events) = ws_connection_established client_id_counter [] turns in
      ((known : Bool) × (follow j (some false) events ≡ some known)) × (length cs ≡ upgrades turns)
ws_connection_established_lem turns j le =
    let (p, q) = follow-ws_connection_established j client_id_counter [] turns refl (omega arith) in
    (
      (is_announced j (ws_connection_established client_id_counter [] turns).0, p),
      omega (
        arith,
        length-CountsDown (client_id_counter + upgrades turns)
            (ws_connection_established client_id_counter [] turns).0 q,
      ),
    )
