-- ===== src/Devices.antt =====
-- cli_tool/devices and cli_tool/catalog: drivers, and the catalogs of their commands.
pub mod Registry
pub mod Catalog
pub mod Loader
pub mod CatalogTests
pub mod Tests
