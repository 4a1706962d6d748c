-- ===== src/Matching/Links/Tests.antt =====
-- Three orders join a level and the one in the middle leaves it.
use naoto_exchange.Common.{ℕ, [], ◌∷◌, none, some, ◌==◌, ◌≡◌, refl, pos, arith, update}
use naoto_exchange.Wire.{limit, buy, execute}
use naoto_exchange.Matching.Level.{
  OrderNode, PriceLevel, new_level, add_order, delete_order, is_empty,
}
use naoto_exchange.Matching.Links.{Links, new_links, add_node, delete_node}
use naoto_exchange.Matching.Links.Refines.{IsLinked}
use naoto_exchange.Matching.Links.Levels.{addresses, Paired, start, added, deleted, Paired-IsLinked}

abbrev node : ℕ → OrderNode
node a = record {
  addr = a;
  order = record {
    price = pos 100;
    order_id = a;
    client_order_id = 0;
    client_id = 7;
    amount = 10;
    asset_id = 1;
    order_type = limit;
    side = buy;
    action = execute;
  };
}

abbrev links : Links
links = delete_node 5 (add_node 6 (add_node 5 (add_node 4 (new_links (λ i. none) (λ i. none)))))

abbrev level : PriceLevel
level =
    delete_order (node 5)
      (add_order (node 6) (add_order (node 5) (add_order (node 4) (new_level (pos 100)))))

jumps : links.next 4 ≡ some 6
unfolding delete_node add_node update
jumps = refl

level-Paired : Paired links level
unfolding add_order
level-Paired =
    deleted _ _ (node 5)
      (added _ _ (node 6)
        (added _ _ (node 5) (added _ _ (node 4) (start (λ i. none) (λ i. none) (pos 100)) tt)
          ((λ e. omega (arith, e)), tt))
        ((λ e. omega (arith, e)), ((λ e. omega (arith, e)), tt)))
      (record { before = node 4 ∷ []; after = node 6 ∷ []; stands = refl })

Paired-IsLinked_example :
    IsLinked links (addresses level.orders) × ((links.size == 0) ≡ is_empty level)
Paired-IsLinked_example = Paired-IsLinked links level level-Paired
