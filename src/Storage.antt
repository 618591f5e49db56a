-- ===== src/Storage.antt =====
-- internal/storage/postgres: the store of points, its partitions, the outbox table and the migrations.
-- What the tables of the outbox, the retention and the partitions hold is modelled in part; else the database answers.
pub mod Points
pub mod Partitions
pub mod Flush
pub mod Maintenance
pub mod Migrations
pub mod Outbox
pub mod Reading
mod Tests
