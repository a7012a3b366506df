-- ===== src/Voting/Ballots/Count.antt =====
-- The tally against the ballots, counted by position.
use enterprise_management.Base.{
  ℕ, ◌+◌, ◌≡◌, refl, Bool, true, false, List, [], ◌∷◌, if◌then◌else◌, length, arith,
}
use enterprise_management.Voting.{
  Position, not_cast, vote_for, vote_against, abstain, recused, unknown, position_eq, Vote, Counts,
  Chamber,
}
use enterprise_management.Voting.Ballots.{
  entitlement, whole_weight, no_counts, count_position, tally_rows, tally,
}

-- The rows of a position, and the sum of their whole weights.
abbrev pub number_of : Position → List Vote → ℕ
number_of p [] = 0
number_of p (v ∷ rows) = (if position_eq p v.position then 1 else 0) + number_of p rows

abbrev pub weight_of : Position → List Vote → ℕ
weight_of p [] = 0
weight_of p (v ∷ rows) =
    (if position_eq p v.position then whole_weight v.weight else 0) + weight_of p rows

-- The rows that no counter but the first counts.
abbrev pub is_uncounted : Position → Bool
is_uncounted not_cast = true
is_uncounted (unknown x) = true
is_uncounted _ = false

abbrev pub uncounted : List Vote → ℕ
uncounted [] = 0
uncounted (v ∷ rows) = (if is_uncounted v.position then 1 else 0) + uncounted rows

-- The counters are those before, with the rows added.
abbrev pub Adds : List Vote → Counts → Counts → Type 0
Adds rows n t =
    (t.eligible_voter_count ≡ n.eligible_voter_count)
    × (t.votes_for ≡ n.votes_for + weight_of vote_for rows)
    × (t.votes_against ≡ n.votes_against + weight_of vote_against rows)
    × (t.abstentions ≡ n.abstentions + number_of abstain rows)
    × (t.recusals ≡ n.recusals + number_of recused rows)
    × (t.votes_cast
        ≡ n.votes_cast
          + (number_of vote_for rows + number_of vote_against rows + number_of abstain rows))

module _ (v : Vote) where
  count_position-Adds :
      (p : Position) (n : Counts)
      → Adds (record v { position = p } ∷ []) n (count_position p v.weight n)
  count_position-Adds not_cast n =
      (refl, omega arith, omega arith, omega arith, omega arith, omega arith)
  count_position-Adds vote_for n =
      (refl, omega arith, omega arith, omega arith, omega arith, omega arith)
  count_position-Adds vote_against n =
      (refl, omega arith, omega arith, omega arith, omega arith, omega arith)
  count_position-Adds abstain n =
      (refl, omega arith, omega arith, omega arith, omega arith, omega arith)
  count_position-Adds recused n =
      (refl, omega arith, omega arith, omega arith, omega arith, omega arith)
  count_position-Adds (unknown x) n =
      (refl, omega arith, omega arith, omega arith, omega arith, omega arith)

tally_rows-Adds : (rows : List Vote) (n : Counts) → Adds rows n (tally_rows rows n)
unfolding tally_rows
tally_rows-Adds [] n = (refl, omega arith, omega arith, omega arith, omega arith, omega arith)
tally_rows-Adds (v ∷ rows) n =
    let (a, b, d, e, f, g) = tally_rows-Adds rows (count_position v.position v.weight n) in
    let (a', b', d', e', f', g') = count_position-Adds v v.position n in
    (omega arith, omega arith, omega arith, omega arith, omega arith, omega arith)

one_position :
    (p : Position)
    → 1
      ≡ (if position_eq vote_for p then 1 else 0)
        + (if position_eq vote_against p then 1 else 0)
        + (if position_eq abstain p then 1 else 0)
        + (if position_eq recused p then 1 else 0)
        + (if is_uncounted p then 1 else 0)
one_position not_cast = refl
one_position vote_for = refl
one_position vote_against = refl
one_position abstain = refl
one_position recused = refl
one_position (unknown x) = refl

length-positions :
    (rows : List Vote)
    → length rows
      ≡ number_of vote_for rows
        + number_of vote_against rows
        + number_of abstain rows
        + number_of recused rows
        + uncounted rows
length-positions [] = refl
length-positions (v ∷ rows) =
    let rest = length-positions rows in let one = one_position v.position in omega arith

-- The tally of a motion counts its rows: those for and against by whole weight, those abstaining
-- and recused by number. The votes cast are the rows for, against and abstaining; with the
-- recusals and the rows that are neither, they make up the eligible voters.
pub tally-counts :
    (c : Chamber) (motion : ℕ)
    → (((tally c motion).votes_for ≡ weight_of vote_for (entitlement c motion))
        × ((tally c motion).votes_against ≡ weight_of vote_against (entitlement c motion)))
      × (((tally c motion).abstentions ≡ number_of abstain (entitlement c motion))
          × ((tally c motion).recusals ≡ number_of recused (entitlement c motion)))
      × ((tally c motion).votes_cast
          ≡ number_of vote_for (entitlement c motion)
            + number_of vote_against (entitlement c motion)
            + number_of abstain (entitlement c motion))
      × ((tally c motion).eligible_voter_count
          ≡ (tally c motion).votes_cast
            + (tally c motion).recusals
            + uncounted (entitlement c motion))
unfolding tally
tally-counts c motion =
    let rows = entitlement c motion in
    let (a, b, d, e, f, g) = tally_rows-Adds rows (no_counts (length rows)) in
    let whole = length-positions rows in
    ((omega arith, omega arith), (omega arith, omega arith), omega arith, omega arith)
