-- ===== src/Tests/Deletion.antt =====
-- Two accounts, of which the first is deleted, and an aggregate route set over both; a request of the second used a key of the first.
use token_board.Base.{ℕ, ◌≡◌, refl, false, true, none, some, [], ◌∷◌}
use token_board.Deletion.{Row, ProxyTables, is_in, purge_proxy_account}
use token_board.Deletion.Account.{IsConsistent}
use token_board.Deletion.RouteSets.{are_kept, purge_proxy_account-IsConsistent}

abbrev row : ℕ → ℕ → Row
row id parent = record { id = id; parent = some parent }

abbrev tables : ProxyTables
tables = record {
  accounts = 1 ∷ 2 ∷ [];
  upstreams = row 10 1 ∷ row 20 2 ∷ [];
  route_sets = row 11 1 ∷ row 21 2 ∷ record { id = 31; parent = none } ∷ [];
  route_rules =
      record { route_set = 21; upstream = 10 } ∷ record { route_set = 21; upstream = 20 } ∷ [];
  client_keys = row 12 11 ∷ row 22 21 ∷ [];
  credentials = row 13 10 ∷ row 23 20 ∷ [];
  secrets = row 0 13 ∷ row 0 23 ∷ [];
  catalog = row 0 10 ∷ [];
  contracts = row 14 1 ∷ [];
  rate_events = row 0 14 ∷ [];
  importers = [];
  request_log =
      record {
        account = some 1;
        account_identity = none;
        route_set = some 11;
        client_key = some 12;
        credential = some 13;
        upstream_key = some 3;
        content = 100;
      }
      ∷ record {
        account = some 2;
        account_identity = some 2;
        route_set = some 21;
        client_key = some 12;
        credential = some 13;
        upstream_key = some 3;
        content = 200;
      }
      ∷ [];
  request_attempts =
      record {
        account = some 2;
        upstream = some 10;
        credential = some 13;
        upstream_key = some 3;
        content = 7;
      }
      ∷ [];
}

tables-IsConsistent : IsConsistent tables
tables-IsConsistent = record {
  upstreams = refl;
  route_sets = refl;
  route_rules = refl;
  client_keys = refl;
  credentials = refl;
  secrets = refl;
  catalog = refl;
  contracts = refl;
  rate_events = refl;
  importers = refl;
  request_log = refl;
  request_attempts = refl;
}

purge_proxy_account-IsConsistent_example :
    IsConsistent (purge_proxy_account 1 tables)
    × (is_in 1 (purge_proxy_account 1 tables).accounts ≡ false)
    × (are_kept 1 tables.request_log (purge_proxy_account 1 tables).request_log ≡ true)
purge_proxy_account-IsConsistent_example =
    purge_proxy_account-IsConsistent 1 tables tables-IsConsistent
