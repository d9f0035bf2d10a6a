-- ===== src/Table.antt =====
-- The client of the table service: internal/table.
pub mod Pool
pub mod Transaction
