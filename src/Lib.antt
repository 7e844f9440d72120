-- ===== src/Lib.antt =====
-- ParSEval: generation of databases that tell SQL queries apart.
--
-- The program parses a query into terms over multiplicities, scalars and three-valued predicates,
-- executes them on a symbolic instance, records the branch outcomes that the execution reaches, and
-- solves the conditions of outcomes not reached yet for new rows. `disprove` runs two queries on the
-- databases grown in this way and reports a verdict.
--
-- Parts and files:
--   Common                  shared names, Boolean tests, integers, lists, optional results.
--   Scalar                  src/parseval/symbolic: scalar and predicate terms (Term; the node classes
--                           of src/parseval/terms/terms.py), runtime errors (Outcome), LIKE (Like),
--                           `ZExpr.evaluate` and the operations it executes (Evaluate); `<` on
--                           values (Order); `result_sort` (Sorts) and `execute` (Operations) of
--                           src/parseval/symbolic/operations.py.
--   Smt.Valuation           src/parseval/instance/valuation.py: `is_open`, `value`, `inputs`, `fold`;
--                           `and3`, `or3` and `not3` (Building); `add`, `case`, `minimum`,
--                           `maximum` and `is_binary` (Sums).
--   Smt.Formula             the atoms and formulas of src/parseval/smt/csp.py, with their meaning.
--   Smt.Normalizer          `Normalizer` of src/parseval/smt/csp.py: Attempt (its exceptions),
--                           Weights (`is_weight`, `positive`), Lift (`_lift`, `_split`), Truth
--                           (`truth`, `_truth`, `_test`, `_compare`, `_not_distinct`); the children
--                           of Exact prove it node by node.
--   Smt.Links               `_consistent` of src/parseval/smt/csp.py, a union of linked inputs: its
--                           forest of parents (Forest) and what it decides (Consistency).
--   Smt.Search              `narrow`, `propagate` and `_entailed` inside `search` of the same file,
--                           over an interface of spaces; Domain fills the interface with `Space`;
--                           Solve has `solve` and `search`. The other children prove it: Measure
--                           and Solve.Ends that the loops end, Sound, Propagated and
--                           Solve.Unsatisfiable that no satisfying assignment is lost.
--   Ordering                src/parseval/instance/ordering.py: comparisons and the stable order, peers
--                           and ranks (Peers), partitions, LAG and LEAD and frames
--                           (Windows), and `window` from its callbacks (Windows.Calls).
--   Uexpr.Order             src/parseval/uexpr/order.py: the normal form of ordered terms.
--   Terms.Binding           src/parseval/terms/binding.py: `shift_vars`, `substitute_row` and
--                           `swap_row_vars`.
--   Space                   src/parseval/instance/domain.py: `Space.narrow` and `Space.admits`, over an
--                           interface of ordered values.
--   Storage                 `limit`, `fits`, `capacity` and `_nth` of the same file.
--   Coverage                src/parseval/generator/coverage.py: `Recorder.wants` and `observe`,
--                           `Sites.child` and `path` (Sites).
--   Driver                  src/parseval/main.py: `differ` (Compare) and `disprove`, its verdicts NEQ
--                           (Verdicts) and EQ (Agreement).
--   Examples                runs at concrete inputs.
--
-- A term of the arena is the tree that its id stands for, so the memo tables, which only save work,
-- are not modelled. Python's exceptions are values: `failed` is a SQL runtime error, and
-- `unsupported`, `exhausted` and `key_error` are those of the normalizer. The normalizer counts its
-- nodes down from NORMALIZED; here the first argument of `truth` bounds the depth instead, and a
-- result at any depth has the stated meaning. Scalar values are Booleans, integers and texts (lists
-- of character codes); floats, dates and times are not modelled. An assignment gives every
-- parameter its validated value, and a registered callback its validated result, so `validate` is
-- not modelled. The registered scalar callbacks, `str.casefold`, the database backend, the SQL
-- parser and the databases a generation accepts are parameters.
--
-- `search` keeps its counter of branches; the depth of `solve` and the rounds of `propagate` are
-- bounded by the number of nodes of the open choices, which every branch and every round with a change
-- makes smaller. `_assign`, which proposes values, is a parameter: every assignment is tested before it
-- is returned. The spaces order values of one sort as Python does and put the sorts one after another,
-- where Python would raise; typed terms never ask for that. Rounds of `root` are bounded by the number
-- of links, and rounds of `add` by the number of terms.
--
-- Not modelled: `_assign` of src/parseval/smt/csp.py, the concolic machine, the rewriting of
-- U-expressions, the arena, the parser and the catalog; see the component list of the
-- repository's verification manifest.
pub mod Common
pub mod Coverage
pub mod Driver
pub mod Examples
pub mod Ordering
pub mod Scalar
pub mod Smt
pub mod Space
pub mod Storage
pub mod Terms
pub mod Uexpr
