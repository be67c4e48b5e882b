-- ===== src/Net/Select/Tests.antt =====
-- The theorems on the select server at the listening socket 3.
use coding_demo.Base.{◌==◌, none, some, [], ◌∷◌}
use coding_demo.Net.Select.{Round}

-- A first client comes as 4, and says hi.
abbrev knock : Round
knock = record {
  is_set = λ fd. fd == 3;
  received = λ i. none;
  accepted = some 4;
  first_received = some (b'h' ∷ b'i' ∷ []);
}
