-- ===== src/Domain.antt =====
-- packages/domain/src/portfolio_manager/domain: the portfolio's data model. A Python class is a
-- record here, and `X(…)` is its fields put together and then `x_post_init`, which is the class's
-- `__post_init__`: it returns the value with its timestamps normalised, or the exception.
pub mod Identifiers
pub mod Temporal
pub mod Numeric
pub mod Quality
pub mod Ownership
pub mod Scope
pub mod Observations
pub mod Activities
