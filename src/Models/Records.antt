-- ===== src/Models/Records.antt =====
-- server/internal/models/records.go: the counters of an account's matches.
use fear_online_server.Prelude.{ℕ}

pub record PvPRecord : Type 0 where
  pub games : ℕ
  pub win : ℕ
  pub lose : ℕ
  pub draw : ℕ
  pub kill : ℕ
  pub death : ℕ
  pub headshot : ℕ

pub record PvERecord : Type 0 where
  pub complete : ℕ
  pub games : ℕ
  pub npc_kill : ℕ
  pub death : ℕ

pub record HitRecord : Type 0 where
  pub head : ℕ
  pub arms : ℕ
  pub body : ℕ
  pub legs : ℕ
  pub miss : ℕ

pub record Records : Type 0 where
  pub pvp : PvPRecord
  pub pve : PvERecord
  pub hit : HitRecord

-- Go's zero value.
abbrev pub no_records : Records
no_records = record {
  pvp = record { games = 0; win = 0; lose = 0; draw = 0; kill = 0; death = 0; headshot = 0 };
  pve = record { complete = 0; games = 0; npc_kill = 0; death = 0 };
  hit = record { head = 0; arms = 0; body = 0; legs = 0; miss = 0 };
}
