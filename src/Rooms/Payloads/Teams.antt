-- ===== src/Rooms/Payloads/Teams.antt =====
-- NotifyTeamList's body, read back.
use fear_online_server.Prelude.{
  ℕ, zero, suc, ◌^◌, ◌<◌, ◌≡◌, refl, sym, ap, ◌∙◌, arith, List, [], ◌∷◌, ◌++◌, All, map, length,
  drop, drop-length_append, append_assoc, append-nil, Option, none, some,
}
use fear_online_server.Prelude.Int.{pos, negsuc}
use fear_online_server.Wire.Varint.{
  Decoded, value, incomplete, too_long, encode_var_int, decode_var_int,
}
use fear_online_server.Wire.Varint.Decode.{decode-encode}
use fear_online_server.Wire.Bytes.{append_uint32, le_bytes, read_uint32, read-uint32}
use fear_online_server.Rooms.Room.{RoomUser}
use fear_online_server.Rooms.Payloads.{append_teams, team_list}

abbrev in_front : ℕ × ℕ → Option (List (ℕ × ℕ)) → Option (List (ℕ × ℕ))
in_front row none = none
in_front row (some rows) = some (row ∷ rows)

-- A reader of a number of rows, an id and a team each, that takes all the bytes.
unfoldable pub read_rows : ℕ → List ℕ → Option (List (ℕ × ℕ))
unfolding read_uint32
read_rows zero [] = some []
read_rows zero (b ∷ bytes) = none
read_rows (suc n) (a ∷ b ∷ c ∷ d ∷ team ∷ bytes) =
    in_front (read_uint32 (a ∷ b ∷ c ∷ d ∷ []), team) (read_rows n bytes)
read_rows (suc n) _ = none

abbrev counted : List ℕ → Decoded → Option (List (ℕ × ℕ))
counted body (value (pos n) k) = read_rows n (drop k body)
counted body (value (negsuc n) k) = none
counted body incomplete = none
counted body too_long = none

unfoldable pub read_teams : List ℕ → Option (List (ℕ × ℕ))
unfolding decode_var_int read_rows
read_teams body = counted body (decode_var_int body 0)

append_teams-append :
    (front body : List ℕ) (us : List RoomUser)
    → append_teams (front ++ body) us ≡ front ++ append_teams body us
unfolding append_teams append_uint32
append_teams-append front body [] = refl
append_teams-append front body (u ∷ us) =
    ap (λ b. append_teams b us)
      (ap (λ b. b ++ (u.team ∷ [])) (append_assoc front body (le_bytes 4 u.id))
        ∙ append_assoc front (body ++ le_bytes 4 u.id) (u.team ∷ []))
    ∙ append_teams-append front ((body ++ le_bytes 4 u.id) ++ (u.team ∷ [])) us

same_id : (v : ℕ) → v < 2 ^ 32 → read_uint32 (le_bytes 4 v) ≡ v
unfolding append_uint32
same_id v b = read-uint32 v [] b

read_rows-append_teams :
    (us : List RoomUser)
    → All (λ u. u.id < 2 ^ 32) us
    → read_rows (length us) (append_teams [] us) ≡ some (map (λ u. (u.id, u.team)) us)
unfolding read_rows append_teams append_uint32
read_rows-append_teams [] h = refl
read_rows-append_teams (u ∷ us) h =
    let row = le_bytes 4 u.id ++ (u.team ∷ []) in
    ap (read_rows (suc (length us)))
      (ap (λ b. append_teams b us) (sym (append-nil row)) ∙ append_teams-append row [] us)
    ∙ ap (λ n. in_front (n, u.team) (read_rows (length us) (append_teams [] us))) (same_id u.id h.0)
    ∙ ap (in_front (u.id, u.team)) (read_rows-append_teams us h.1)

team_list-split :
    (us : List RoomUser) → team_list us ≡ encode_var_int (pos (length us)) ++ append_teams [] us
unfolding team_list
team_list-split us =
    let count = encode_var_int (pos (length us)) in
    ap (λ b. append_teams b us) (sym (append-nil count)) ∙ append_teams-append count [] us

-- A client that reads the count and then a row for each user gets back the id and the team of every user
-- of the room, in the order of the seats and with no bytes left, as long as the ids are uint32 values and
-- there are fewer than 2^31 users.
pub read_teams-team_list :
    (us : List RoomUser)
    → All (λ u. u.id < 2 ^ 32) us
    → length us < 2 ^ 31
    → read_teams (team_list us) ≡ some (map (λ u. (u.id, u.team)) us)
unfolding read_teams
read_teams-team_list us h b =
    let count = encode_var_int (pos (length us)) in
    let rows = append_teams [] us in
    ap read_teams (team_list-split us)
    ∙ ap (counted (count ++ rows)) (decode-encode (pos (length us)) [] rows (omega arith))
    ∙ ap (read_rows (length us)) (drop-length_append count rows)
    ∙ read_rows-append_teams us h
