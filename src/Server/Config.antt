-- ===== src/Server/Config.antt =====
-- The configuration of a server: `Location`, `Config` and their comparison (Server.h, Server.cc in
-- src/panda/unievent/http). A text is its bytes, and an SSL context or a socket the number by which
-- the program knows it.
use uni_event_http.Base.{
  ℕ, ◌≡◌, refl, Bool, true, false, not, ◌&&◌, ◌||◌, Option, none, some, List, [], ◌∷◌, ◌==◌, arith,
  ap, subst, ◌↔◌, is_empty, is_some, length, if◌then◌else◌,
}
use uni_event_http.Error.{HttpError, no_locations, empty_location}

pub record Location : Type 0 where
  pub host : List ℕ
  pub port : ℕ
  pub path : List ℕ
  pub reuse_port : Bool
  pub backlog : ℕ
  pub domain : ℕ
  pub tcp_nodelay : Bool
  pub ssl_ctx : Option ℕ
  pub sock : Option ℕ

pub record Config : Type 0 where
  pub locations : List Location
  pub idle_timeout : ℕ
  pub max_headers_size : ℕ
  pub max_body_size : ℕ
  pub tcp_nodelay : Bool
  pub max_keepalive_requests : ℕ

abbrev default_backlog : ℕ
default_backlog = 4096

-- The comparisons of the members.
unfoldable pub eq_bytes : List ℕ → List ℕ → Bool
eq_bytes [] [] = true
eq_bytes [] (b ∷ ys) = false
eq_bytes (a ∷ xs) [] = false
eq_bytes (a ∷ xs) (b ∷ ys) = a == b && eq_bytes xs ys

abbrev pub eq_bool : Bool → Bool → Bool
eq_bool true b = b
eq_bool false b = not b

abbrev pub eq_option : Option ℕ → Option ℕ → Bool
eq_option none none = true
eq_option (some a) (some b) = a == b
eq_option _ _ = false

unfoldable location_eq : Location → Location → Bool
location_eq a b =
    eq_bytes a.host b.host
    && a.port == b.port
    && eq_bytes a.path b.path
    && eq_bool a.reuse_port b.reuse_port
    && a.backlog == b.backlog
    && a.domain == b.domain
    && eq_option a.ssl_ctx b.ssl_ctx
    && eq_option a.sock b.sock
    && eq_bool a.tcp_nodelay b.tcp_nodelay

-- `std::equal` from the two beginnings, for as many as the first list has.
unfoldable locations_equal : List Location → List Location → Bool
locations_equal [] ys = true
locations_equal (x ∷ xs) [] = false
locations_equal (x ∷ xs) (y ∷ ys) = location_eq x y && locations_equal xs ys

pub config_eq : Config → Config → Bool
config_eq a b =
    a.idle_timeout == b.idle_timeout
    && a.max_headers_size == b.max_headers_size
    && a.max_body_size == b.max_body_size
    && eq_bool a.tcp_nodelay b.tcp_nodelay
    && a.max_keepalive_requests == b.max_keepalive_requests
    && length a.locations == length b.locations
    && locations_equal a.locations b.locations

-- The checks at the head of `configure`.
some_empty_location : List Location → Bool
some_empty_location [] = false
some_empty_location (l ∷ ls) =
    (is_empty l.host && is_empty l.path && not (is_some l.sock)) || some_empty_location ls

unfoldable pub check_config : Config → Option HttpError
unfolding some_empty_location
check_config conf =
    if is_empty conf.locations
    then some no_locations
    else if some_empty_location conf.locations
    then some empty_location
    else none

-- The loop of `configure` over the copied locations.
unfoldable pub normalize_location : Bool → Location → Location
normalize_location nodelay l = record l {
  backlog = if l.backlog == 0 then default_backlog else l.backlog;
  tcp_nodelay = if nodelay then true else l.tcp_nodelay;
}

unfoldable pub normalize_locations : Bool → List Location → List Location
normalize_locations nodelay [] = []
normalize_locations nodelay (l ∷ ls) = normalize_location nodelay l ∷ normalize_locations nodelay ls

unfoldable pub normalize : Config → Config
unfolding normalize_locations
normalize conf = record conf { locations = normalize_locations conf.tcp_nodelay conf.locations }

pub eq_bytes→≡ : (xs ys : List ℕ) → eq_bytes xs ys ≡ true → xs ≡ ys
unfolding eq_bytes
eq_bytes→≡ [] [] e = refl
eq_bytes→≡ [] (b ∷ ys) e = cc
eq_bytes→≡ (a ∷ xs) [] e = cc
eq_bytes→≡ (a ∷ xs) (b ∷ ys) e = ground (arith, eq_bytes→≡ xs ys)

pub eq_bytes_self : (xs : List ℕ) → eq_bytes xs xs ≡ true
unfolding eq_bytes
eq_bytes_self [] = refl
eq_bytes_self (a ∷ xs) = ground (arith, eq_bytes_self xs)

location_eq→≡ : (a b : Location) → location_eq a b ≡ true → a ≡ b
unfolding location_eq
location_eq→≡ a b e = ground (arith, eq_bytes→≡ a.host b.host, eq_bytes→≡ a.path b.path)

location_eq_self : (a : Location) → location_eq a a ≡ true
unfolding location_eq
location_eq_self a = ground (arith, eq_bytes_self a.host, eq_bytes_self a.path)

locations_equal→≡ :
    (xs ys : List Location) → length xs ≡ length ys → locations_equal xs ys ≡ true → xs ≡ ys
unfolding locations_equal
locations_equal→≡ [] [] n e = refl
locations_equal→≡ [] (y ∷ ys) n e = absurd (omega arith)
locations_equal→≡ (x ∷ xs) [] n e = cc
locations_equal→≡ (x ∷ xs) (y ∷ ys) n e = ground (arith, location_eq→≡ x y, locations_equal→≡ xs ys)

locations_equal_self : (xs : List Location) → locations_equal xs xs ≡ true
unfolding locations_equal
locations_equal_self [] = refl
locations_equal_self (x ∷ xs) = ground (arith, location_eq_self x, locations_equal_self xs)

config_eq→≡ : (a b : Config) → config_eq a b ≡ true → a ≡ b
unfolding config_eq
config_eq→≡ a b e = ground (arith, locations_equal→≡ a.locations b.locations)

config_eq_self : (a : Config) → config_eq a a ≡ true
unfolding config_eq
config_eq_self a = ground (arith, locations_equal_self a.locations)

-- Two configurations compare equal exactly if they are the same in every member.
pub config_eq↔≡ : (a b : Config) → (config_eq a b ≡ true) ↔ (a ≡ b)
config_eq↔≡ a b = (config_eq→≡ a b, λ e. subst (λ c. config_eq a c ≡ true) e (config_eq_self a))

-- The defaults that `configure` fills into a configuration are filled in once: a second time changes
-- nothing.
normalize-normalize : (conf : Config) → normalize (normalize conf) ≡ normalize conf
unfolding normalize normalize_location
normalize-normalize conf =
    ap (λ ls. record conf { locations = ls }) (twice conf.tcp_nodelay conf.locations)
  where
    twice :
        (b : Bool) (ls : List Location)
        → normalize_locations b (normalize_locations b ls) ≡ normalize_locations b ls
    twice b [] = refl
    twice b (l ∷ ls) = ground (arith, twice b ls)
