-- ===== src/Services/Clans/Stored.antt =====
-- The stored clans as a whole: a map under their names, each of them well formed.
use mathlib.Core.Logic.{◌≢◌}
use fear_online_server.Prelude.{◌≡◌, String, eq_iff, arith, Bool, List, [], ◌∷◌, some, All}
use fear_online_server.Models.Clan.{Clan}
use fear_online_server.Models.Clan.Roster.{IsClan}
use fear_online_server.Repositories.Table.{lookup, insert, delete, find_value}

-- The keys are all different, and every clan stands under its name and is well formed.
abbrev pub AllClans : List (String × Clan) → Type 0
AllClans [] = Unit {0}
AllClans ((j, c) ∷ t) = (c.name ≡ j) × IsClan c × All (λ e. e.0 ≢ j) t × AllClans t

pub lookup-AllClans :
    (t : List (String × Clan)) (name : String) (c : Clan)
    → AllClans t
    → lookup name t ≡ some c
    → (c.name ≡ name) × IsClan c
lookup-AllClans [] name c h e = absurd (cc)
lookup-AllClans ((j, d) ∷ t) name c h e =
    ground (arith, eq_iff j name, lookup-AllClans t name c h.3)

lookup-other :
    (t : List (String × Clan)) (j name : String) (c : Clan)
    → All (λ e. e.0 ≢ j) t
    → lookup name t ≡ some c
    → name ≢ j
lookup-other [] j name c h e = absurd (cc)
lookup-other ((k, d) ∷ t) j name c h e = ground (arith, eq_iff k name, lookup-other t j name c h.1)

-- The clan that a search finds is the one that stands under its name.
pub find-AllClans :
    (t : List (String × Clan)) (test : Clan → Bool) (c : Clan)
    → AllClans t
    → find_value test t ≡ some c
    → lookup c.name t ≡ some c
find-AllClans [] test c h e = absurd (cc)
find-AllClans ((j, d) ∷ t) test c h e =
    ground (arith, eq_iff j c.name, find-AllClans t test c h.3, lookup-other t j c.name c h.2)

insert-other :
    (t : List (String × Clan)) (j name : String) (c : Clan)
    → name ≢ j
    → All (λ e. e.0 ≢ j) t
    → All (λ e. e.0 ≢ j) (insert name c t)
insert-other [] j name c n h = (n, tt)
insert-other ((k, d) ∷ t) j name c n h =
    ground (arith, eq_iff k name, insert-other t j name c n h.1)

pub insert-AllClans :
    (t : List (String × Clan)) (name : String) (c : Clan)
    → AllClans t
    → c.name ≡ name
    → IsClan c
    → AllClans (insert name c t)
insert-AllClans [] name c h e k = (e, k, tt, tt)
insert-AllClans ((j, d) ∷ t) name c h e k =
    ground (arith, eq_iff j name, insert-other t j name c, insert-AllClans t name c h.3 e k)

delete-other :
    (t : List (String × Clan)) (j name : String)
    → All (λ e. e.0 ≢ j) t
    → All (λ e. e.0 ≢ j) (delete name t)
delete-other [] j name h = tt
delete-other ((k, d) ∷ t) j name h = ground (arith, delete-other t j name h.1)

pub delete-AllClans :
    (t : List (String × Clan)) (name : String) → AllClans t → AllClans (delete name t)
delete-AllClans [] name h = tt
delete-AllClans ((j, d) ∷ t) name h =
    ground (arith, delete-other t j name h.2, delete-AllClans t name h.3)
