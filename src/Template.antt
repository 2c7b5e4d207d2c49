-- ===== src/Template.antt =====
-- pkg/lib/template/template_funcs.go: the functions of the templates that compute on numbers and on
-- rows. text/template calls them, and reports an error or a panic as the error of the template.
pub mod Arithmetic
pub mod Rows
pub mod Functions
pub mod Groups
