-- ===== src/Params.antt =====
-- The reader of the parameter file, params.c: `read_parameter_file` with its keywords, and
-- `check_parameters_complete`. The C library's text functions are the argument `c`.
pub mod Settings
pub mod Keywords
pub mod Reading
pub mod Check
pub mod Ranges
pub mod Complete
pub mod Wrap
mod Examples
