-- ===== src/Web.antt =====
-- The web interface, oxana-web/src: its pages of jobs, the texts of its filters, and the tables of its
-- handlers. The routes and the templates are left out.
pub mod Pagination
pub mod Queues
pub mod Shown
