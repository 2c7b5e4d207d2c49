-- ===== src/Tests.antt =====
-- Concrete inputs: tests of the definitions, and the theorems at inputs that meet their hypotheses.
pub mod Hosts
mod Comparing
mod Storing
mod Casing
mod Reporting
mod Proxying
mod Tables
mod Suites
mod Mailing
mod Templating
mod Nesting
mod Requesting
pub mod Responding
mod Pages
mod Serving
mod Passing
mod Loading
mod Running
mod Grouping
